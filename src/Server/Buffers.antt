-- ===== src/Server/Buffers.antt =====
-- The buffer `readbuf` of the PREAD, READLINK and RAND handlers: what they ask the machine to put
-- there.
use icbinn.Common.{
  ℕ, ◌≡◌, refl, ap, Bytes, true, false, none, inl, inr, List, [], ◌∷◌, leb, ltb, if◌then◌else◌,
  arith,
}
use icbinn.Protocol.{
  Request, ReaddirArgs, ReadlinkArgs, PreadArgs, RandArgs, RandRes, Result, chunk, random, max_data,
}
use icbinn.Kernel.{Kernel, Dir, Sys-cases, s_isdir}
use icbinn.Server.State.{Server, Run, done, exited, fault, ◌>>=◌}
use icbinn.Server.Files.{
  stat_1_svc, statfs_1_svc, open_1_svc, lock_1_svc, readlink_1_svc, pread_1_svc, ftruncate_1_svc,
  fallocate_1_svc, pwrite_1_svc, close_1_svc, fsync_1_svc, rand_1_svc,
}
use icbinn.Server.Names.{symlink_1_svc, mkdir_1_svc, rmdir_1_svc, rename_1_svc, unlink_1_svc}
use icbinn.Server.Readdir.{
  directory_prefix, Scan, append_entry, look_up, visit, readdir_loop, read_entries, list_directory,
  free_previous, readdir_1_svc,
}
use icbinn.Server.Dispatch.{serve}

-- A machine on which `pread`, `readlink` and `read` into a buffer of more than `max_data` bytes do
-- what they do on another machine: nothing is known of an access past the end of `readbuf`.
abbrev pub guarded : {W : Type 0} → (k past : Kernel W) → Kernel W
guarded k past = record k {
  readlink = λ path n. if leb n max_data then k.readlink path n else past.readlink path n;
  pread = λ fd n offset. if leb n max_data then k.pread fd n offset else past.pread fd n offset;
  read = λ fd n. if leb n max_data then k.read fd n else past.read fd n;
}

pub bind-same :
    {A B : Type 0} (m : Run A) (f g : A → Run B) → ((a : A) → f a ≡ g a) → m >>= f ≡ m >>= g
bind-same (done a) f g h = h a
bind-same exited f g h = refl
bind-same fault f g h = refl

-- Chains of calls that agree.
pub bind_cong :
    {A B : Type 0} (m m' : Run A) (f g : A → Run B)
    → m ≡ m'
    → ((a : A) → f a ≡ g a)
    → m >>= f ≡ m' >>= g
bind_cong m m' f g e h = rw e (bind-same m' f g h)

module _ {W : Type 0} (k past : Kernel W) where
  abbrev g : Kernel W
  g = guarded k past

  pread-guarded : (argp : PreadArgs) (s : Server W) → pread_1_svc g argp s ≡ pread_1_svc k argp s
  unfolding pread_1_svc
  pread-guarded argp s = ground arith

  readlink-guarded :
      (argp : ReadlinkArgs) (s : Server W) → readlink_1_svc g argp s ≡ readlink_1_svc k argp s
  unfolding readlink_1_svc
  readlink-guarded argp s = ground arith

  rand-guarded : (argp : RandArgs) (s : Server W) → rand_1_svc g argp s ≡ rand_1_svc k argp s
  unfolding rand_1_svc
  rand-guarded argp s = ground arith

  loop-guarded :
      (prefix : Bytes) (offset count : ℕ) (names : List Bytes) (s : Scan W)
      → readdir_loop g prefix offset count names s ≡ readdir_loop k prefix offset count names s
  unfolding readdir_loop visit look_up append_entry
  loop-guarded prefix offset count [] s = refl
  loop-guarded prefix offset count (d_name ∷ names) s =
      let v = visit k prefix offset d_name (record s { dp_null = false }) in
      ap (λ r. if ltb s.dcount count then r else done s)
        (bind_cong v v (readdir_loop g prefix offset count names)
          (readdir_loop k prefix offset count names) refl (loop-guarded prefix offset count names))

  entries-guarded :
      (argp : ReaddirArgs) (dirp : Dir) (s : Server W)
      → read_entries g argp dirp s ≡ read_entries k argp dirp s
  unfolding read_entries
  entries-guarded argp dirp s = bind-same (directory_prefix argp.dir) _ _ (λ prefix.
      let start : Scan W = record {
        doffset = 0;
        dcount = 0;
        entries = [];
        dp_null = true;
        allocated = s.allocated;
        world = s.world;
      } in
      bind_cong (readdir_loop g prefix argp.offset argp.count dirp.names start)
        (readdir_loop k prefix argp.offset argp.count dirp.names start) _ _
        (loop-guarded prefix argp.offset argp.count dirp.names start) (λ e. refl))

  list-guarded :
      (argp : ReaddirArgs) (s : Server W) → list_directory g argp s ≡ list_directory k argp s
  unfolding list_directory
  list-guarded argp s = elim (Sys-cases (k.opendir argp.dir s.world).0) [
    | inl (errno, e) ↦ rw (e, list_directory) refl
    | inr (dirp, e) ↦ rw (e, list_directory) (entries-guarded argp dirp _)
  ]

  readdir-guarded :
      (argp : ReaddirArgs) (s : Server W) → readdir_1_svc g argp s ≡ readdir_1_svc k argp s
  unfolding readdir_1_svc free_previous
  readdir-guarded argp s =
      let s' = record (free_previous k s) { listed = none } in
      elim (Sys-cases (k.stat argp.dir s'.world).0) [
        | inl (errno, e) ↦ rw (e, readdir_1_svc) refl
        | inr (sbuf, e) ↦
            let s'' = record s' { world = (k.stat argp.dir s'.world).1 } in
            rw (e, readdir_1_svc)
              (ap (λ r. if s_isdir sbuf.mode then r else done (none, s'')) (list-guarded argp s''))
      ]

  -- No request, in no state of the server, makes a handler ask the machine for more bytes than
  -- `readbuf` takes: it has the same result and the same effects on a machine on which `pread`,
  -- `readlink` and `read` of more than `max_data` bytes do what they do on any other machine.
  pub serve-guarded : (req : Request) (s : Server W) → serve (guarded k past) req s ≡ serve k req s
  unfolding serve stat_1_svc open_1_svc lock_1_svc pwrite_1_svc close_1_svc mkdir_1_svc rmdir_1_svc
      rename_1_svc unlink_1_svc ftruncate_1_svc fallocate_1_svc symlink_1_svc statfs_1_svc
      fsync_1_svc
  serve-guarded (Request.readdir argp) s =
      bind_cong (readdir_1_svc g argp s) (readdir_1_svc k argp s) _ _ (readdir-guarded argp s)
        (λ out. refl)
  serve-guarded (Request.pread argp) s =
      ap (λ (out : Result Bytes × Server W). done (chunk out.0, out.1)) (pread-guarded argp s)
  serve-guarded (Request.readlink argp) s =
      ap (λ (out : Result Bytes × Server W). done (chunk out.0, out.1)) (readlink-guarded argp s)
  serve-guarded (Request.rand argp) s =
      ap (λ (out : RandRes × Server W). done (random out.0, out.1)) (rand-guarded argp s)
  serve-guarded Request.null s = refl
  serve-guarded _ s = refl
