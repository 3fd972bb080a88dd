-- ===== src/Server/Answers.antt =====
-- Requests to a server where memory does not run out.
use icbinn.Common.{
  ℕ, ◌≡◌, Bytes, false, none, List, [], ◌∷◌, ◌++◌, length, ◌+◌, ltb, if_both, inl, inr, arith,
}
use icbinn.Protocol.{Request, Response, ReaddirArgs}
use icbinn.Kernel.{Kernel, Sys-cases, Dir, s_isdir}
use icbinn.Server.State.{Server, done}
use icbinn.Server.Outcomes.{NoExit, bind-NoExit, returns}
use icbinn.Server.Readdir.{
  directory_prefix, Scan, append_entry, look_up, visit, readdir_loop, read_entries, list_directory,
  free_previous, readdir_1_svc, entry_size,
}
use icbinn.Server.Dispatch.{serve}
use icbinn.Server.Overruns.{ChecksPaths, serve-NoFault}
use icbinn.Server.Pages.{HasMemory}

prefix-NoExit : (dir : Bytes) → NoExit (directory_prefix dir)
unfolding directory_prefix
prefix-NoExit dir = ground arith

module _ {W : Type 0} (k : Kernel W) (memory : HasMemory k) where
  append_entry-NoExit :
      (d_name : Bytes) (mode : ℕ) (s : Scan W) → NoExit (append_entry k d_name mode s)
  unfolding append_entry
  append_entry-NoExit d_name mode s =
      rw (memory entry_size s.world, memory (length d_name + 1) s.world, append_entry) tt

  look_up-NoExit :
      (prefix : Bytes) (offset : ℕ) (d_name : Bytes) (s : Scan W)
      → NoExit (look_up k prefix offset d_name s)
  unfolding look_up
  look_up-NoExit prefix offset d_name s = elim (Sys-cases (k.lstat (prefix ++ d_name) s.world).0) [
    | inl (errno, e) ↦ rw (e, look_up) tt
    | inr (sbuf, e) ↦
        rw (e, look_up)
          (if_both NoExit (ltb s.doffset offset) tt (append_entry-NoExit d_name sbuf.mode _))
  ]

  visit-NoExit :
      (prefix : Bytes) (offset : ℕ) (d_name : Bytes) (s : Scan W)
      → NoExit (visit k prefix offset d_name s)
  unfolding visit
  visit-NoExit prefix offset d_name s = ground (arith, look_up-NoExit prefix offset d_name s)

  loop-NoExit :
      (prefix : Bytes) (offset count : ℕ) (names : List Bytes) (s : Scan W)
      → NoExit (readdir_loop k prefix offset count names s)
  unfolding readdir_loop
  loop-NoExit prefix offset count [] s = tt
  loop-NoExit prefix offset count (d_name ∷ names) s =
      let s' = record s { dp_null = false } in
      if_both NoExit (ltb s.dcount count)
        (bind-NoExit (visit k prefix offset d_name s') (readdir_loop k prefix offset count names)
          (visit-NoExit prefix offset d_name s') (loop-NoExit prefix offset count names))
        tt

  entries-NoExit :
      (argp : ReaddirArgs) (dirp : Dir) (s : Server W) → NoExit (read_entries k argp dirp s)
  unfolding read_entries
  entries-NoExit argp dirp s =
      bind-NoExit (directory_prefix argp.dir) _ (prefix-NoExit argp.dir) (λ prefix.
        bind-NoExit (readdir_loop k prefix argp.offset argp.count dirp.names _) _
          (loop-NoExit prefix argp.offset argp.count dirp.names _) (λ t. tt))

  list-NoExit : (argp : ReaddirArgs) (s : Server W) → NoExit (list_directory k argp s)
  unfolding list_directory
  list-NoExit argp s = elim (Sys-cases (k.opendir argp.dir s.world).0) [
    | inl (errno, e) ↦ rw (e, list_directory) tt
    | inr (dirp, e) ↦ rw (e, list_directory) (entries-NoExit argp dirp _)
  ]

  readdir-NoExit : (argp : ReaddirArgs) (s : Server W) → NoExit (readdir_1_svc k argp s)
  unfolding readdir_1_svc
  readdir-NoExit argp s =
      let s' = record (free_previous k s) { listed = none } in
      elim (Sys-cases (k.stat argp.dir s'.world).0) [
        | inl (errno, e) ↦ rw (e, readdir_1_svc) tt
        | inr (sbuf, e) ↦
            rw (e, readdir_1_svc) (if_both NoExit (s_isdir sbuf.mode) (list-NoExit argp _) tt)
      ]

  serve-NoExit : (req : Request) (s : Server W) → NoExit (serve k req s)
  unfolding serve
  serve-NoExit (Request.readdir argp) s =
      bind-NoExit (readdir_1_svc k argp s) _ (readdir-NoExit argp s) (λ r. tt)
  serve-NoExit _ s = tt

  pub serve-answers :
      ChecksPaths k
      → (req : Request) (s : Server W) → (out : Response × Server W) × (serve k req s ≡ done out)
  serve-answers checks req s =
      returns (serve k req s) (serve-NoFault k checks req s) (serve-NoExit req s)
