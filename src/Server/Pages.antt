-- ===== src/Server/Pages.antt =====
-- The loop of READDIR: which entries it adds to a listing.
use icbinn.Common.{
  ℕ, ◌+◌, ◌≤◌, ◌<◌, ◌≡◌, Bytes, true, false, List, [], ◌∷◌, ◌++◌, lt→ltb, le→ltb-false, ◌%◌, length,
  ltb, if◌then◌else◌, inl, inr, Bool-cases, arith,
}
use native.Mathlib.Decide.{dec_lt}
use icbinn.Protocol.{Entry, u32_size, max_path_len}
use icbinn.Kernel.{Kernel, Sys, Sys-cases, Stat, returned, failed}
use icbinn.Server.State.{done, set_icbinn_prot_type}
use icbinn.Server.Growth.{Paged, Page-full, Page-end, Page-nothing, Page-over, Page-taken}
use icbinn.Server.Readdir.{Scan, skipped, append_entry, look_up, visit, readdir_loop, entry_size}

-- `lstat` looks, and changes nothing.
abbrev pub OnlyLooks : {W : Type 0} → Kernel W → Type 0
OnlyLooks {W} k = (path : Bytes) (w : W) → (k.lstat path w).1 ≡ w

-- `malloc` succeeds, and changes nothing that system calls see.
abbrev pub HasMemory : {W : Type 0} → Kernel W → Type 0
HasMemory {W} k = (n : ℕ) (w : W) → k.malloc n w ≡ (true, w)

module _ {W : Type 0} (k : Kernel W) (prefix : Bytes) (w : W) where
  -- The entry that a name gives, where `lstat` finds it.
  unfoldable pub found : Bytes → Sys Stat → List Entry
  found d_name (failed errno) = []
  found d_name (returned sbuf) =
      record { name = d_name; type = set_icbinn_prot_type sbuf.mode } ∷ []

  -- The entries of a stream of names, in its order: those of names that are not skipped and that
  -- `lstat` finds.
  unfoldable pub visible : List Bytes → List Entry
  visible [] = []
  visible (d_name ∷ names) =
      let rest = visible names in
      if skipped d_name then rest else found d_name (k.lstat (prefix ++ d_name) w).0 ++ rest

module _ {W : Type 0} (k : Kernel W) (looks : OnlyLooks k) (memory : HasMemory k) (prefix : Bytes)
    (short : length prefix ≤ max_path_len) (w : W) (offset count : ℕ) where
  -- a name that is visited within the buffer
  visit_looks :
      (d_name : Bytes) (s : Scan W)
      → skipped d_name ≡ false
      → visit k prefix offset d_name s ≡ look_up k prefix offset d_name s
  unfolding visit skipped
  visit_looks d_name s e = ground arith

  visit_skips :
      (d_name : Bytes) (s : Scan W)
      → skipped d_name ≡ true
      → visit k prefix offset d_name s ≡ done s
  unfolding visit
  visit_skips d_name s e = rw e

  look_up_failed :
      (d_name : Bytes) (s : Scan W) (errno : ℕ)
      → (k.lstat (prefix ++ d_name) s.world).0 ≡ failed errno
      → look_up k prefix offset d_name s ≡ done s
  unfolding look_up
  look_up_failed d_name s errno e = rw (e, looks (prefix ++ d_name) s.world, look_up)

  look_up_over :
      (d_name : Bytes) (s : Scan W) (sbuf : Stat)
      → (k.lstat (prefix ++ d_name) s.world).0 ≡ returned sbuf
      → s.doffset < offset
      → s.doffset + 1 < u32_size
      → look_up k prefix offset d_name s ≡ done (record s { doffset = s.doffset + 1 })
  unfolding look_up
  look_up_over d_name s sbuf e below small =
      let m : (s.doffset + 1) % u32_size ≡ s.doffset + 1 = omega arith in
      rw (e, looks (prefix ++ d_name) s.world, lt→ltb s.doffset offset below, m, look_up)

  look_up_taken :
      (d_name : Bytes) (s : Scan W) (sbuf : Stat)
      → (k.lstat (prefix ++ d_name) s.world).0 ≡ returned sbuf
      → offset ≤ s.doffset
      → s.doffset + 1 < u32_size
      → look_up k prefix offset d_name s
        ≡ done (record s {
          doffset = s.doffset + 1;
          dcount = s.dcount + 1;
          entries =
              s.entries ++ record { name = d_name; type = set_icbinn_prot_type sbuf.mode } ∷ [];
          allocated = s.allocated + 2;
        })
  unfolding look_up append_entry
  look_up_taken d_name s sbuf e beyond small =
      let m : (s.doffset + 1) % u32_size ≡ s.doffset + 1 = omega arith in
      rw (
        e,
        looks (prefix ++ d_name) s.world,
        le→ltb-false s.doffset offset beyond,
        m,
        memory entry_size s.world,
        memory (length d_name + 1) s.world,
        look_up,
        append_entry,
      )

  pub loop_pages :
      (names : List Bytes) (s : Scan W)
      → s.world ≡ w
      → s.doffset + length names < u32_size
      → Paged offset count (visible k prefix w names) s (readdir_loop k prefix offset count names s)
  unfolding readdir_loop visible found
  loop_pages [] s same small = elim (Bool-cases (ltb s.dcount count)) [
    | inl more ↦ (record s { dp_null = true }, rw more, Page-end offset count [] s more)
    | inr full ↦ (s, rw full, Page-full offset count [] s full)
  ]
  loop_pages (d_name ∷ names) s same small =
      let s' = record s { dp_null = false } in
      elim (Bool-cases (ltb s.dcount count)) [
        | inr full ↦ (s, rw full, Page-full offset count _ s full)
        | inl more ↦ elim (Bool-cases (skipped d_name)) [
          | inl skip ↦
              let (out, q, p) = loop_pages names s' same (omega arith) in
              rw (more, skip, visit_skips d_name s' skip)
                (out, q, Page-nothing offset count _ s out more p)
          | inr look ↦ elim (Sys-cases (k.lstat (prefix ++ d_name) w).0) [
            | inl (errno, e) ↦
                let (out, q, p) = loop_pages names s' same (omega arith) in
                rw
                  (
                    more,
                    look,
                    visit_looks d_name s' look,
                    e,
                    look_up_failed d_name s' errno (rw same e),
                  )
                  (out, q, Page-nothing offset count _ s out more p)
            | inr (sbuf, e) ↦
                let entry : Entry = record {
                  name = d_name;
                  type = set_icbinn_prot_type sbuf.mode;
                } in
                elim (dec_lt s.doffset offset) [
                  | yes below ↦
                      let (out, q, p) =
                        loop_pages names (record s' { doffset = s.doffset + 1 }) same
                          (omega arith) in
                      rw
                        (
                          more,
                          look,
                          visit_looks d_name s' look,
                          e,
                          look_up_over d_name s' sbuf (rw same e) below (omega arith),
                        )
                        (out, q, Page-over offset count _ s entry s.world out more below p)
                  | no beyond ↦
                      let (out, q, p) =
                        loop_pages names
                          (record s' {
                            doffset = s.doffset + 1;
                            dcount = s.dcount + 1;
                            entries = s.entries ++ entry ∷ [];
                            allocated = s.allocated + 2;
                          })
                          same (omega arith) in
                      rw
                        (
                          more,
                          look,
                          visit_looks d_name s' look,
                          e,
                          look_up_taken d_name s' sbuf (rw same e) (omega arith) (omega arith),
                        )
                        (
                          out,
                          q,
                          Page-taken offset count _ s entry s.world (s.allocated + 2) out more
                              (omega arith) p,
                        )
                ]
          ]
        ]
      ]
