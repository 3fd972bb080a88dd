-- ===== src/Server/Replies.antt =====
-- What every reply of the server keeps to.
use icbinn.Common.{
  ℕ, ◌≤◌, ◌<◌, ℤ, pos, negsuc, Bytes, none, some, List, [], ◌∷◌, ◌++◌, length, ltb, if_both, inl,
  inr, false, arith,
}
use icbinn.Protocol.{
  Request, Response, ok, error, FileType, other, Entry, ReaddirArgs, ReaddirRes, void, listing,
  attributes, opened, chunk, status, random, space, max_data, max_name_len,
}
use icbinn.Kernel.{Kernel, Sys-cases, Dir}
use icbinn.Kernel.Documented.{Documented}
use icbinn.Server.State.{Server, get_pathname_len, set_icbinn_prot_type}
use icbinn.Server.Outcomes.{Returning, bind-Returning, Returning-any}
use icbinn.Server.Files.{
  open_flags, stat_1_svc, statfs_1_svc, open_1_svc, lock_1_svc, readlink_1_svc, pread_1_svc,
  ftruncate_1_svc, fallocate_1_svc, pwrite_1_svc, close_1_svc, fsync_1_svc, rand_1_svc,
}
use icbinn.Server.Names.{
  owner_only, symlink_1_svc, mkdir_1_svc, rmdir_1_svc, rename_1_svc, unlink_1_svc,
}
use icbinn.Server.Readdir.{
  directory_prefix, Scan, skipped, append_entry, look_up, visit, readdir_loop, read_entries,
  list_directory, readdir_1_svc,
}
use icbinn.Server.Dispatch.{serve}

-- one of the four numbers of the enumeration
abbrev pub IsKnown : FileType → Type 0
IsKnown (other number) = ⊥
IsKnown _ = Unit

-- a positive error number, which a client turns into a negative result
abbrev pub IsErrno : ℤ → Type 0
IsErrno (pos n) = 0 < n
IsErrno (negsuc n) = ⊥

abbrev pub AreSound : List Entry → Type 0
AreSound [] = Unit
AreSound (e ∷ es) = (length e.name < max_name_len) × IsKnown e.type × AreSound es

-- A reply is within the limits of icbinn_prot.x, its types are of the enumeration, a descriptor is
-- not negative, and an error has a positive number.
abbrev pub IsSound : Response → Type 0
IsSound void = Unit
IsSound (listing none) = Unit
IsSound (listing (some reply)) = AreSound reply.entries
IsSound (attributes (ok reply)) = IsKnown reply.type
IsSound (attributes (error errno_code)) = IsErrno errno_code
IsSound (opened (ok (pos fd))) = Unit
IsSound (opened (ok (negsuc fd))) = ⊥
IsSound (opened (error errno_code)) = IsErrno errno_code
IsSound (chunk (ok bytes)) = length bytes ≤ max_data
IsSound (chunk (error errno_code)) = IsErrno errno_code
IsSound (status (ok _)) = Unit
IsSound (status (error errno_code)) = IsErrno errno_code
IsSound (random none) = Unit
IsSound (random (some bytes)) = length bytes ≤ max_data
IsSound (space (ok reply)) = Unit
IsSound (space (error errno_code)) = IsErrno errno_code

type-IsKnown : (mode : ℕ) → IsKnown (set_icbinn_prot_type mode)
unfolding set_icbinn_prot_type
type-IsKnown mode = ground arith

AreSound-append :
    (es : List Entry) (e : Entry)
    → AreSound es
    → length e.name < max_name_len
    → IsKnown e.type
    → AreSound (es ++ e ∷ [])
AreSound-append [] e h n t = (n, t, tt)
AreSound-append (x ∷ es) e h n t = (h.0, h.1, AreSound-append es e h.2 n t)

module _ {W : Type 0} (k : Kernel W) where
  append_entry-Sound :
      (d_name : Bytes) (mode : ℕ) (s : Scan W)
      → length d_name < max_name_len
      → AreSound s.entries
      → Returning (λ (t : Scan W). AreSound t.entries) (append_entry k d_name mode s)
  unfolding append_entry
  append_entry-Sound d_name mode s short h = ground (
    arith,
    AreSound-append s.entries (record { name = d_name; type = set_icbinn_prot_type mode }) h short
        (type-IsKnown mode),
  )

  look_up-Sound :
      (prefix : Bytes) (offset : ℕ) (d_name : Bytes) (s : Scan W)
      → length d_name < max_name_len
      → AreSound s.entries
      → Returning (λ (t : Scan W). AreSound t.entries) (look_up k prefix offset d_name s)
  unfolding look_up
  look_up-Sound prefix offset d_name s short h =
      elim (Sys-cases (k.lstat (prefix ++ d_name) s.world).0) [
        | inl (errno, e) ↦ rw (e, look_up) h
        | inr (sbuf, e) ↦
            rw (e, look_up)
              (if_both (Returning (λ (t : Scan W). AreSound t.entries)) (ltb s.doffset offset) h
                (append_entry-Sound d_name sbuf.mode _ short h))
      ]

  visit-Sound :
      (prefix : Bytes) (offset : ℕ) (d_name : Bytes) (s : Scan W)
      → AreSound s.entries
      → Returning (λ (t : Scan W). AreSound t.entries) (visit k prefix offset d_name s)
  unfolding visit skipped
  visit-Sound prefix offset d_name s h = ground (arith, look_up-Sound prefix offset d_name s)

  loop-Sound :
      (prefix : Bytes) (offset count : ℕ) (names : List Bytes) (s : Scan W)
      → AreSound s.entries
      → Returning (λ (t : Scan W). AreSound t.entries) (readdir_loop k prefix offset count names s)
  unfolding readdir_loop
  loop-Sound prefix offset count [] s h = ground arith
  loop-Sound prefix offset count (d_name ∷ names) s h =
      let Q : Scan W → Type 0 = λ t. AreSound t.entries in
      let s' = record s { dp_null = false } in
      if_both (Returning Q) (ltb s.dcount count)
        (bind-Returning Q Q (visit k prefix offset d_name s')
          (readdir_loop k prefix offset count names) (visit-Sound prefix offset d_name s' h)
          (λ t p. loop-Sound prefix offset count names t p))
        h

  abbrev Listed : ReaddirRes × Server W → Type 0
  Listed (res, s) = IsSound (listing res)

  entries-Sound :
      (argp : ReaddirArgs) (dirp : Dir) (s : Server W)
      → Returning Listed (read_entries k argp dirp s)
  unfolding read_entries
  entries-Sound argp dirp s =
      bind-Returning (λ prefix. Unit {0}) Listed (directory_prefix argp.dir) _
        (Returning-any (directory_prefix argp.dir))
        (λ prefix _.
          bind-Returning (λ (t : Scan W). AreSound t.entries) Listed
            (readdir_loop k prefix argp.offset argp.count dirp.names _) _
            (loop-Sound prefix argp.offset argp.count dirp.names _ tt) (λ t h. h))

  readdir-Sound : (argp : ReaddirArgs) (s : Server W) → Returning Listed (readdir_1_svc k argp s)
  unfolding readdir_1_svc list_directory
  readdir-Sound argp s = grind (arith, entries-Sound)

  -- On a machine whose system calls keep to what is documented of them, a reply to any request, in
  -- any state, is within the limits of icbinn_prot.x: no data of more than `max_data` bytes, no
  -- name in a listing of `max_name_len` bytes or more, no type out of the enumeration, no negative
  -- descriptor, and no error whose number is not positive.
  pub serve-IsSound :
      Documented k
      → (req : Request) (s : Server W)
      → Returning (λ (out : Response × Server W). IsSound out.0) (serve k req s)
  unfolding serve get_pathname_len stat_1_svc statfs_1_svc open_1_svc readlink_1_svc symlink_1_svc
      mkdir_1_svc rmdir_1_svc rename_1_svc unlink_1_svc lock_1_svc pread_1_svc pwrite_1_svc
      rand_1_svc close_1_svc fsync_1_svc ftruncate_1_svc fallocate_1_svc
  serve-IsSound d (Request.readdir argp) s =
      bind-Returning Listed (λ (out : Response × Server W). IsSound out.0) (readdir_1_svc k argp s)
        _ (readdir-Sound argp s) (λ r p. p)
  serve-IsSound d Request.null s = tt
  serve-IsSound d (Request.stat path) s = grind (arith, d.lstat path s.world, type-IsKnown)
  serve-IsSound d (Request.open_file argp) s =
      ground (arith, d.open_file argp.name (open_flags argp.mode) 0o600 s.world)
  serve-IsSound d (Request.lock argp) s = grind (arith, d.set_lock)
  serve-IsSound d (Request.pread argp) s =
      ground (arith, d.pread argp.fd argp.count argp.offset s.world)
  serve-IsSound d (Request.pwrite argp) s =
      ground (arith, d.pwrite argp.fd argp.bytes argp.offset s.world)
  serve-IsSound d (Request.close fd) s = ground (arith, d.close fd s.world)
  serve-IsSound d (Request.mkdir path) s = ground (arith, d.mkdir path owner_only s.world)
  serve-IsSound d (Request.rmdir path) s = ground (arith, d.rmdir path s.world)
  serve-IsSound d (Request.rename argp) s = ground (arith, d.rename argp.from argp.to s.world)
  serve-IsSound d (Request.unlink path) s = ground (arith, d.unlink path s.world)
  serve-IsSound d (Request.ftruncate argp) s =
      ground (arith, d.ftruncate argp.fd argp.length s.world)
  serve-IsSound d (Request.rand argp) s = grind (arith, d.read)
  serve-IsSound d (Request.fallocate argp) s =
      ground (arith, d.fallocate argp.fd argp.mode argp.offset argp.length s.world)
  serve-IsSound d (Request.symlink argp) s =
      ground (arith, d.symlink argp.oldpath argp.newpath s.world)
  serve-IsSound d (Request.readlink argp) s =
      ground (arith, d.readlink argp.path argp.bufsz s.world)
  serve-IsSound d (Request.statfs path) s = ground (arith, d.statvfs path s.world)
  serve-IsSound d (Request.fsync fd) s = ground (arith, d.fsync fd s.world)
