-- ===== src/Server/Simulation/Listing.antt =====
-- READDIR on a machine and on a view of it.
use icbinn.Common.{
  ℕ, ◌+◌, ◌≡◌, refl, sym, ap, ◌∙◌, Bytes, Bool-cases, Option-cases, false, none, some, List, [],
  ◌∷◌, ◌++◌, length, ltb, leb, inl, inr, if◌then◌else◌,
}
use icbinn.Protocol.{ReaddirArgs, ReaddirRes}
use icbinn.Kernel.{Kernel, Sys-cases, returned, failed, Dir, s_isdir}
use icbinn.Server.State.{Server, Run, done, exited, fault}
use icbinn.Server.Readdir.{
  directory_prefix, Scan, skipped, filepath_size, entry_size, append_entry, look_up, visit,
  readdir_loop, read_entries, list_directory, free_previous, readdir_1_svc,
}
use icbinn.Server.Simulation.{map_run, map_run-bind, Simulates, seen, seen_out}

map_run_id : {A : Type 0} (m : Run A) → map_run (λ a. a) m ≡ m
map_run_id (done a) = refl
map_run_id exited = refl
map_run_id fault = refl

-- The handler from its `stat` on.
abbrev from_stat : {W : Type 0} → Kernel W → ReaddirArgs → Server W → Run (ReaddirRes × Server W)
from_stat k argp s =
    let (r, w) = k.stat argp.dir s.world in
    elim r [
      | failed errno ↦ done (none, record s { world = w })
      | returned sbuf ↦
          if s_isdir sbuf.mode
          then list_directory k argp (record s { world = w })
          else done (none, record s { world = w })
    ]

module _ {W V : Type 0} {view : W → V} {k : Kernel W} {k' : Kernel V}
    (like : Simulates view k k') where
  abbrev scanned : Scan W → Scan V
  scanned s = record {
    doffset = s.doffset;
    dcount = s.dcount;
    entries = s.entries;
    dp_null = s.dp_null;
    allocated = s.allocated;
    world = view s.world;
  }

  append_entry-Alike :
      (d_name : Bytes) (mode : ℕ) (s : Scan W)
      → map_run scanned (append_entry k d_name mode s) ≡ append_entry k' d_name mode (scanned s)
  unfolding append_entry
  append_entry-Alike d_name mode s =
      let (got, left) = like.malloc entry_size s.world in
      let w = (k.malloc entry_size s.world).1 in
      let (got_name, left_name) = like.malloc (length d_name + 1) w in
      rw (← got, ← left, ← got_name, ← left_name)
        (elim (Bool-cases (k.malloc entry_size s.world).0) [
          | inr e ↦ rw e refl
          | inl e ↦ elim (Bool-cases (k.malloc (length d_name + 1) w).0) [
            | inl f ↦ rw (e, f) refl
            | inr f ↦ rw (e, f) refl
          ]
        ])

  look_up-Alike :
      (prefix : Bytes) (offset : ℕ) (d_name : Bytes) (s : Scan W)
      → map_run scanned (look_up k prefix offset d_name s)
        ≡ look_up k' prefix offset d_name (scanned s)
  unfolding look_up
  look_up-Alike prefix offset d_name s =
      let (found, left) = like.lstat (prefix ++ d_name) s.world in
      elim (Sys-cases (k.lstat (prefix ++ d_name) s.world).0) [
        | inl (errno, e) ↦ rw (e, sym found ∙ e, look_up) (rw (← left) refl)
        | inr (sbuf, e) ↦ elim (Bool-cases (ltb s.doffset offset)) [
          | inl f ↦ rw (e, sym found ∙ e, look_up, f) (rw (← left) refl)
          | inr f ↦
              rw (e, sym found ∙ e, look_up, f)
                (rw (← left) (append_entry-Alike d_name sbuf.mode _))
        ]
      ]

  visit-Alike :
      (prefix : Bytes) (offset : ℕ) (d_name : Bytes) (s : Scan W)
      → map_run scanned (visit k prefix offset d_name s) ≡ visit k' prefix offset d_name (scanned s)
  unfolding visit
  visit-Alike prefix offset d_name s = elim (Bool-cases (skipped d_name)) [
    | inl e ↦ rw e refl
    | inr e ↦ elim (Bool-cases (leb filepath_size (length prefix + length d_name))) [
      | inl f ↦ rw (e, f) refl
      | inr f ↦ rw (e, f) (look_up-Alike prefix offset d_name s)
    ]
  ]

  loop-Alike :
      (prefix : Bytes) (offset count : ℕ) (names : List Bytes) (s : Scan W)
      → map_run scanned (readdir_loop k prefix offset count names s)
        ≡ readdir_loop k' prefix offset count names (scanned s)
  unfolding readdir_loop
  loop-Alike prefix offset count [] s = elim (Bool-cases (ltb s.dcount count)) [
    | inl e ↦ rw e refl
    | inr e ↦ rw e refl
  ]
  loop-Alike prefix offset count (d_name ∷ names) s = elim (Bool-cases (ltb s.dcount count)) [
    | inr e ↦ rw e refl
    | inl e ↦ rw e (
        map_run-bind scanned scanned _ _ (readdir_loop k prefix offset count names)
          (readdir_loop k' prefix offset count names)
          (visit-Alike prefix offset d_name (record s { dp_null = false }))
          (loop-Alike prefix offset count names))
  ]

  entries-Alike :
      (argp : ReaddirArgs) (dirp : Dir) (s : Server W)
      → map_run (seen_out view) (read_entries k argp dirp s)
        ≡ read_entries k' argp dirp (seen view s)
  unfolding read_entries
  entries-Alike argp dirp s =
      map_run-bind (λ (prefix : Bytes). prefix) (seen_out view) (directory_prefix argp.dir) _ _ _
        (map_run_id (directory_prefix argp.dir))
        λ prefix.
          map_run-bind scanned (seen_out view) _ _ _ _
            (loop-Alike prefix argp.offset argp.count dirp.names _)
            λ e.
              let res : ReaddirRes = some (record { entries = e.entries; eof = e.dp_null }) in
              ap
                (λ v.
                  done (
                    res,
                    record (seen view s) { listed = res; allocated = e.allocated; world = v },
                  ))
                (like.closedir dirp.handle e.world)

  directory-Alike :
      (argp : ReaddirArgs) (s : Server W)
      → map_run (seen_out view) (list_directory k argp s) ≡ list_directory k' argp (seen view s)
  unfolding list_directory
  directory-Alike argp s =
      let (found, left) = like.opendir argp.dir s.world in
      elim (Sys-cases (k.opendir argp.dir s.world).0) [
        | inl (errno, e) ↦ rw (e, sym found ∙ e, list_directory) (rw (← left) refl)
        | inr (dirp, e) ↦
            rw (e, sym found ∙ e, list_directory) (rw (← left) (entries-Alike argp dirp _))
      ]

  freed-Alike : (s : Server W) → seen view (free_previous k s) ≡ free_previous k' (seen view s)
  unfolding free_previous
  freed-Alike s = elim (Bool-cases s.fresh) [
    | inl e ↦ rw e refl
    | inr e ↦ elim (Option-cases s.listed) [
      | inl f ↦ rw (e, f) refl
      | inr (reply, f) ↦ rw (e, f) refl
    ]
  ]

  from_stat-Alike :
      (argp : ReaddirArgs) (s : Server W)
      → map_run (seen_out view) (from_stat k argp s) ≡ from_stat k' argp (seen view s)
  from_stat-Alike argp s =
      let (found, left) = like.stat argp.dir s.world in
      elim (Sys-cases (k.stat argp.dir s.world).0) [
        | inl (errno, e) ↦ rw (e, sym found ∙ e, from_stat) (rw (← left) refl)
        | inr (sbuf, e) ↦ elim (Bool-cases (s_isdir sbuf.mode)) [
          | inr f ↦ rw (e, sym found ∙ e, from_stat, f) (rw (← left) refl)
          | inl f ↦ rw (e, sym found ∙ e, from_stat, f) (rw (← left) (directory-Alike argp _))
        ]
      ]

  -- The handler, with its blocks of the heap and its static result.
  pub readdir-Alike :
      (argp : ReaddirArgs) (s : Server W)
      → map_run (seen_out view) (readdir_1_svc k argp s) ≡ readdir_1_svc k' argp (seen view s)
  unfolding readdir_1_svc
  readdir-Alike argp s =
      from_stat-Alike argp (record (free_previous k s) { listed = none })
      ∙ ap (λ u. from_stat k' argp (record u { listed = none })) (freed-Alike s)
