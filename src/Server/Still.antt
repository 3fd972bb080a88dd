-- ===== src/Server/Still.antt =====
-- READDIR on a machine that its calls do not change.
use icbinn.Common.{
  ℕ, ◌+◌, ◌≡◌, ◌∙◌, Bytes, true, false, none, List, [], ◌∷◌, ◌++◌, length, ltb, if_both, inl, inr,
  arith,
}
use icbinn.Protocol.{ReaddirArgs, ReaddirRes}
use icbinn.Kernel.{Kernel, Sys-cases, Dir, s_isdir}
use icbinn.Server.State.{Server}
use icbinn.Server.Outcomes.{Returning, bind-Returning, Returning-any}
use icbinn.Server.Readdir.{
  directory_prefix, Scan, append_entry, look_up, visit, readdir_loop, read_entries, list_directory,
  free_previous, readdir_1_svc, entry_size, world-free_previous,
}

-- The calls of READDIR look, and change nothing that calls see.
pub record IsStill {W : Type 0} (k : Kernel W) : Type 0 where
  pub stat : (path : Bytes) (w : W) → (k.stat path w).1 ≡ w
  pub lstat : (path : Bytes) (w : W) → (k.lstat path w).1 ≡ w
  pub opendir : (path : Bytes) (w : W) → (k.opendir path w).1 ≡ w
  pub closedir : (handle : ℕ) (w : W) → k.closedir handle w ≡ w
  pub malloc : (n : ℕ) (w : W) → (k.malloc n w).1 ≡ w

module _ {W : Type 0} (k : Kernel W) (still : IsStill k) (w : W) where
  abbrev Stays : Scan W → Type 0
  Stays t = t.world ≡ w

  append_entry-Stays :
      (d_name : Bytes) (mode : ℕ) (s : Scan W)
      → s.world ≡ w
      → Returning Stays (append_entry k d_name mode s)
  unfolding append_entry
  append_entry-Stays d_name mode s e =
      let v = (k.malloc entry_size s.world).1 in
      let same = still.malloc (length d_name + 1) v ∙ still.malloc entry_size s.world ∙ e in
      ground (arith, same)

  look_up-Stays :
      (prefix : Bytes) (offset : ℕ) (d_name : Bytes) (s : Scan W)
      → s.world ≡ w
      → Returning Stays (look_up k prefix offset d_name s)
  unfolding look_up
  look_up-Stays prefix offset d_name s e =
      let same = still.lstat (prefix ++ d_name) s.world ∙ e in
      elim (Sys-cases (k.lstat (prefix ++ d_name) s.world).0) [
        | inl (errno, r) ↦ rw (r, look_up) same
        | inr (sbuf, r) ↦
            rw (r, look_up)
              (if_both (Returning Stays) (ltb s.doffset offset) same
                (append_entry-Stays d_name sbuf.mode _ same))
      ]

  visit-Stays :
      (prefix : Bytes) (offset : ℕ) (d_name : Bytes) (s : Scan W)
      → s.world ≡ w
      → Returning Stays (visit k prefix offset d_name s)
  unfolding visit
  visit-Stays prefix offset d_name s e = ground (arith, look_up-Stays prefix offset d_name s e)

  loop-Stays :
      (prefix : Bytes) (offset count : ℕ) (names : List Bytes) (s : Scan W)
      → s.world ≡ w
      → Returning Stays (readdir_loop k prefix offset count names s)
  unfolding readdir_loop
  loop-Stays prefix offset count [] s e = ground (arith, e)
  loop-Stays prefix offset count (d_name ∷ names) s e =
      let s' = record s { dp_null = false } in
      if_both (Returning Stays) (ltb s.dcount count)
        (bind-Returning Stays Stays (visit k prefix offset d_name s')
          (readdir_loop k prefix offset count names) (visit-Stays prefix offset d_name s' e)
          (loop-Stays prefix offset count names))
        e

  -- what a call of the handler hands on
  abbrev In : ReaddirRes × Server W → Type 0
  In out = out.1.world ≡ w

  entries-In :
      (argp : ReaddirArgs) (dirp : Dir) (s : Server W)
      → s.world ≡ w
      → Returning In (read_entries k argp dirp s)
  unfolding read_entries
  entries-In argp dirp s e =
      let start : Scan W = record {
        doffset = 0;
        dcount = 0;
        entries = [];
        dp_null = true;
        allocated = s.allocated;
        world = s.world;
      } in
      bind-Returning (λ prefix. Unit {0}) In (directory_prefix argp.dir) _
        (Returning-any (directory_prefix argp.dir))
        (λ prefix _.
          bind-Returning Stays In (readdir_loop k prefix argp.offset argp.count dirp.names start) _
            (loop-Stays prefix argp.offset argp.count dirp.names start e)
            (λ t h. still.closedir dirp.handle t.world ∙ h))

  list-In :
      (argp : ReaddirArgs) (s : Server W) → s.world ≡ w → Returning In (list_directory k argp s)
  unfolding list_directory
  list-In argp s e =
      let same = still.opendir argp.dir s.world ∙ e in
      elim (Sys-cases (k.opendir argp.dir s.world).0) [
        | inl (errno, r) ↦ rw (r, list_directory) same
        | inr (dirp, r) ↦ rw (r, list_directory) (entries-In argp dirp _ same)
      ]

  -- READDIR leaves such a machine as it is.
  pub readdir-In :
      (argp : ReaddirArgs) (s : Server W) → s.world ≡ w → Returning In (readdir_1_svc k argp s)
  unfolding readdir_1_svc
  readdir-In argp s e =
      let s' = record (free_previous k s) { listed = none } in
      let same = still.stat argp.dir s'.world ∙ world-free_previous k s ∙ e in
      elim (Sys-cases (k.stat argp.dir s'.world).0) [
        | inl (errno, r) ↦ rw (r, readdir_1_svc) same
        | inr (sbuf, r) ↦
            rw (r, readdir_1_svc)
              (if_both (Returning In) (s_isdir sbuf.mode) (list-In argp _ same) same)
      ]
