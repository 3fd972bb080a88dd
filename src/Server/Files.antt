-- ===== src/Server/Files.antt =====
-- libicbinn/server/server.c: the handlers for descriptors, data and attributes. Each takes the
-- arguments of its procedure and the state, and returns the result with the new state.
use Prim.Native.Nat.{bit_or}
use icbinn.Common.{ℕ, zero, suc, ℤ, pos, Bytes, Option, none, some, ltb, length, if◌then◌else◌}
use icbinn.Protocol.{
  Result, error, ErrnoStat, StatReply, StatfsReply, OpenArgs, LockArgs, ReadlinkArgs, PreadArgs,
  PwriteArgs, FtruncateArgs, FallocateArgs, RandArgs, RandRes, max_data,
}
use icbinn.Kernel.{Kernel, Sys, returned, failed, FlockType, rdlck, wrlck, unlck, einval}
use icbinn.Server.State.{Server, flag_set, set_icbinn_prot_type, call, with_path}

-- the bits of ICBINN_PROT_RDONLY to ICBINN_PROT_TRUNC, and the O_ flags of <fcntl.h> on Linux
abbrev pub rdonly : ℕ
rdonly = 0

abbrev pub wronly : ℕ
wronly = 1

abbrev pub rdwr : ℕ
rdwr = 2

abbrev pub creat : ℕ
creat = 0o100

abbrev pub trunc : ℕ
trunc = 0o1000

-- The five tests of the OPEN handler, each adding its flag by `|=`.
unfoldable pub open_flags : ℕ → ℕ
open_flags mode =
    let f0 = if flag_set mode rdonly then bit_or 0 rdonly else 0 in
    let f1 = if flag_set mode wronly then bit_or f0 wronly else f0 in
    let f2 = if flag_set mode rdwr then bit_or f1 rdwr else f1 in
    let f3 = if flag_set mode trunc then bit_or f2 trunc else f2 in
    if flag_set mode creat then bit_or f3 creat else f3

-- The `switch` of the LOCK handler; `none` is its `default`.
unfoldable pub lock_type : ℤ → Option FlockType
lock_type (pos zero) = some rdlck
lock_type (pos (suc zero)) = some wrlck
lock_type (pos (suc (suc zero))) = some unlck
lock_type _ = none

-- The `switch` of the RAND handler.
abbrev pub random_source : {W : Type 0} → ℤ → Server W → Option ℤ
random_source (pos zero) s = some s.random_fd
random_source (pos (suc zero)) s = some s.urandom_fd
random_source _ s = none

-- An error of the RAND handler carries no number.
abbrev pub random_reply : Sys Bytes → RandRes
random_reply (returned bytes) = some bytes
random_reply (failed errno) = none

module _ {W : Type 0} (k : Kernel W) where
  unfoldable pub stat_1_svc : Bytes → Server W → Result StatReply × Server W
  unfolding set_icbinn_prot_type
  stat_1_svc path = with_path path (
      call (λ sbuf. record { size = sbuf.size; type = set_icbinn_prot_type sbuf.mode })
        (k.lstat path))

  unfoldable pub statfs_1_svc : Bytes → Server W → Result StatfsReply × Server W
  statfs_1_svc path = with_path path (
      call
        (λ sbuf. record {
          bsize = sbuf.bsize;
          blocks = sbuf.blocks;
          bfree = sbuf.bfree;
          bavail = sbuf.bavail;
        })
        (k.statvfs path))

  -- The permissions of a file that OPEN creates are S_IRUSR | S_IWUSR.
  unfoldable pub open_1_svc : OpenArgs → Server W → Result ℤ × Server W
  unfolding open_flags
  open_1_svc argp =
      with_path argp.name (call pos (k.open_file argp.name (open_flags argp.mode) 0o600))

  unfoldable pub lock_1_svc : LockArgs → Server W → ErrnoStat × Server W
  unfolding lock_type
  lock_1_svc argp s = elim (lock_type argp.type) [
    | none ↦ (error (pos einval), s)
    | some l_type ↦ call (λ _. tt) (k.set_lock argp.fd l_type) s
  ]

  unfoldable pub readlink_1_svc : ReadlinkArgs → Server W → Result Bytes × Server W
  readlink_1_svc argp = with_path argp.path λ s.
      if ltb max_data argp.bufsz
      then (error (pos einval), s)
      else call (λ bytes. bytes) (k.readlink argp.path argp.bufsz) s

  unfoldable pub pread_1_svc : PreadArgs → Server W → Result Bytes × Server W
  pread_1_svc argp s =
      if ltb max_data argp.count
      then (error (pos einval), s)
      else call (λ bytes. bytes) (k.pread argp.fd argp.count argp.offset) s

  unfoldable pub ftruncate_1_svc : FtruncateArgs → Server W → ErrnoStat × Server W
  ftruncate_1_svc argp = call (λ _. tt) (k.ftruncate argp.fd argp.length)

  unfoldable pub fallocate_1_svc : FallocateArgs → Server W → ErrnoStat × Server W
  fallocate_1_svc argp = call (λ _. tt) (k.fallocate argp.fd argp.mode argp.offset argp.length)

  -- The number of bytes that `pwrite` reports is compared with 0 only.
  unfoldable pub pwrite_1_svc : PwriteArgs → Server W → ErrnoStat × Server W
  pwrite_1_svc argp s =
      if ltb max_data (length argp.bytes)
      then (error (pos einval), s)
      else call (λ _. tt) (k.pwrite argp.fd argp.bytes argp.offset) s

  unfoldable pub close_1_svc : ℤ → Server W → ErrnoStat × Server W
  close_1_svc fd = call (λ _. tt) (k.close fd)

  unfoldable pub fsync_1_svc : ℤ → Server W → ErrnoStat × Server W
  fsync_1_svc fd = call (λ _. tt) (k.fsync fd)

  unfoldable pub rand_1_svc : RandArgs → Server W → RandRes × Server W
  rand_1_svc argp s =
      if ltb max_data argp.count then (none, s) else elim (random_source argp.src s) [
        | none ↦ (none, s)
        | some fd ↦
            let (r, w) = k.read fd argp.count s.world in (random_reply r, record s { world = w })
      ]
