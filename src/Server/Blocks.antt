-- ===== src/Server/Blocks.antt =====
-- The heap blocks of the READDIR handler: how many it has allocated, how many it has freed, and how
-- many its static result has.
use icbinn.Common.{
  ℕ, ◌+◌, ◌*◌, ◌≡◌, refl, Bytes, true, false, none, some, List, [], ◌∷◌, ◌++◌, length,
  length-append, ltb, if_both, inl, inr, arith,
}
use icbinn.Protocol.{Request, Response, ReaddirArgs, ReaddirRes}
use icbinn.Kernel.{Kernel, Sys-cases, Dir, s_isdir}
use icbinn.Server.State.{Server, init, get_pathname_len}
use icbinn.Server.Outcomes.{Returning, bind-Returning, Returning-mono, Returning-any}
use icbinn.Server.Readdir.{
  directory_prefix, Scan, append_entry, look_up, visit, readdir_loop, read_entries, list_directory,
  free_previous, readdir_1_svc,
}
use icbinn.Server.Dispatch.{serve, session}
use icbinn.Server.Files.{
  stat_1_svc, statfs_1_svc, open_1_svc, lock_1_svc, readlink_1_svc, pread_1_svc, ftruncate_1_svc,
  fallocate_1_svc, pwrite_1_svc, close_1_svc, fsync_1_svc, rand_1_svc,
}
use icbinn.Server.Names.{symlink_1_svc, mkdir_1_svc, rmdir_1_svc, rename_1_svc, unlink_1_svc}

-- The blocks of a listing: two for each entry.
abbrev pub blocks : ReaddirRes → ℕ
blocks none = 0
blocks (some reply) = 2 * length reply.entries

-- As many blocks have been allocated as have been freed and as the static result has; before the
-- first call it has none.
pub record OwnsBlocks {W : Type 0} (s : Server W) : Type 0 where
  pub owned : s.allocated ≡ s.freed + blocks s.listed
  pub untouched : s.fresh ≡ true → s.listed ≡ none

-- `s'` has the blocks of `s` and two more for each entry added.
abbrev Adds : {W : Type 0} → Scan W → Scan W → Type 0
Adds s s' = s'.allocated + 2 * length s.entries ≡ s.allocated + 2 * length s'.entries

module _ {W : Type 0} (k : Kernel W) where
  append_entry-Adds :
      (d_name : Bytes) (mode : ℕ) (s : Scan W) → Returning (Adds s) (append_entry k d_name mode s)
  unfolding append_entry
  append_entry-Adds d_name mode s = grind (arith, length-append)

  look_up-Adds :
      (prefix : Bytes) (offset : ℕ) (d_name : Bytes) (s : Scan W)
      → Returning (Adds s) (look_up k prefix offset d_name s)
  unfolding look_up
  look_up-Adds prefix offset d_name s = elim (Sys-cases (k.lstat (prefix ++ d_name) s.world).0) [
    | inl (errno, e) ↦ rw (e, look_up) refl
    | inr (sbuf, e) ↦
        rw (e, look_up)
          (if_both (Returning (Adds s)) (ltb s.doffset offset) refl
            (append_entry-Adds d_name sbuf.mode _))
  ]

  visit-Adds :
      (prefix : Bytes) (offset : ℕ) (d_name : Bytes) (s : Scan W)
      → Returning (Adds s) (visit k prefix offset d_name s)
  unfolding visit
  visit-Adds prefix offset d_name s = ground (arith, look_up-Adds prefix offset d_name s)

  loop-Adds :
      (prefix : Bytes) (offset count : ℕ) (names : List Bytes) (s : Scan W)
      → Returning (Adds s) (readdir_loop k prefix offset count names s)
  unfolding readdir_loop
  loop-Adds prefix offset count [] s = ground arith
  loop-Adds prefix offset count (d_name ∷ names) s =
      let s' = record s { dp_null = false } in
      if_both (Returning (Adds s)) (ltb s.dcount count)
        (bind-Returning (Adds s') (Adds s) (visit k prefix offset d_name s')
          (readdir_loop k prefix offset count names) (visit-Adds prefix offset d_name s')
          (λ t h.
            Returning-mono (Adds t) (Adds s) (readdir_loop k prefix offset count names t)
              (loop-Adds prefix offset count names t) (λ u h'. omega arith)))
        refl

  -- what a call of the handler hands on
  abbrev Owned : ReaddirRes × Server W → Type 0
  Owned (res, s) = OwnsBlocks s

  entries-Owned :
      (argp : ReaddirArgs) (dirp : Dir) (s : Server W)
      → s.allocated ≡ s.freed
      → s.fresh ≡ false
      → Returning Owned (read_entries k argp dirp s)
  unfolding read_entries
  entries-Owned argp dirp s clean old =
      let start : Scan W = record {
        doffset = 0;
        dcount = 0;
        entries = [];
        dp_null = true;
        allocated = s.allocated;
        world = s.world;
      } in
      bind-Returning (λ prefix. Unit {0}) Owned (directory_prefix argp.dir) _
        (Returning-any (directory_prefix argp.dir))
        (λ prefix _.
          bind-Returning (Adds start) Owned
            (readdir_loop k prefix argp.offset argp.count dirp.names start) _
            (loop-Adds prefix argp.offset argp.count dirp.names start)
            (λ t h. record { owned = omega (arith); untouched = λ e. cc }))

  list-Owned :
      (argp : ReaddirArgs) (s : Server W)
      → OwnsBlocks s
      → s.allocated ≡ s.freed
      → s.fresh ≡ false
      → Returning Owned (list_directory k argp s)
  unfolding list_directory
  list-Owned argp s h clean old = elim (Sys-cases (k.opendir argp.dir s.world).0) [
    | inl (errno, e) ↦ rw (e, list_directory) (record { owned = h.owned; untouched = h.untouched })
    | inr (dirp, e) ↦ rw (e, list_directory) (entries-Owned argp dirp _ clean old)
  ]

  -- What is freed is what there is.
  all_freed :
      (s : Server W)
      → OwnsBlocks s
      → ((free_previous k s).allocated ≡ (free_previous k s).freed)
        × ((free_previous k s).fresh ≡ false)
  unfolding free_previous
  all_freed s h = ground arith

  readdir-Owned :
      (argp : ReaddirArgs) (s : Server W) → OwnsBlocks s → Returning Owned (readdir_1_svc k argp s)
  unfolding readdir_1_svc
  readdir-Owned argp s h =
      let (clean, old) = all_freed s h in
      let s' = record (free_previous k s) { listed = none } in
      let h' : (w : W) → OwnsBlocks (record s' { world = w }) =
        λ w. record { owned = omega (arith, clean); untouched = λ e. refl } in
      elim (Sys-cases (k.stat argp.dir s'.world).0) [
        | inl (errno, e) ↦ rw (e, readdir_1_svc) (h' _)
        | inr (sbuf, e) ↦
            rw (e, readdir_1_svc)
              (if_both (Returning Owned) (s_isdir sbuf.mode) (list-Owned argp _ (h' _) clean old)
                (h' _))
      ]

  pub serve-Owned :
      (req : Request) (s : Server W)
      → OwnsBlocks s
      → Returning (λ (out : Response × Server W). OwnsBlocks out.1) (serve k req s)
  unfolding serve get_pathname_len stat_1_svc statfs_1_svc open_1_svc readlink_1_svc symlink_1_svc
      mkdir_1_svc rmdir_1_svc rename_1_svc unlink_1_svc lock_1_svc pread_1_svc pwrite_1_svc
      rand_1_svc close_1_svc fsync_1_svc ftruncate_1_svc fallocate_1_svc
  serve-Owned (Request.readdir argp) s h =
      bind-Returning Owned (λ (out : Response × Server W). OwnsBlocks out.1)
        (readdir_1_svc k argp s) _ (readdir-Owned argp s h) (λ r p. p)
  serve-Owned _ s h = ground arith

  session-Owned :
      (reqs : List Request) (s : Server W) → OwnsBlocks s → Returning OwnsBlocks (session k reqs s)
  unfolding session
  session-Owned [] s h = h
  session-Owned (req ∷ reqs) s h =
      bind-Returning (λ (out : Response × Server W). OwnsBlocks out.1) OwnsBlocks (serve k req s) _
        (serve-Owned req s h) (λ out p. session-Owned reqs out.1 p)

  -- From the start of a server process, after any sequence of requests that it has answered, the
  -- number of heap blocks that it has allocated for listings is the number that it has freed and
  -- those of READDIR's static result together: two for each of its entries, and none after an
  -- error.
  pub session-OwnsBlocks :
      (reqs : List Request) (w : W) → Returning OwnsBlocks (session k reqs (init w))
  session-OwnsBlocks reqs w =
      session-Owned reqs (init w) (record { owned = refl; untouched = λ e. refl })
