-- ===== src/Client/Stubs.antt =====
-- The RPC stubs that libicbinn/src calls, `icbinn_prot_stat_1` and so on, which are generated from
-- libicbinn/rpc/icbinn_prot.x. They are a parameter: `S` is the state of the connection and of
-- what is at its other end, and `none` is the NULL that a stub returns when the call fails.
use icbinn.Common.{ℤ, Bytes, Option}
use icbinn.Protocol.{
  Result, ErrnoStat, ReaddirArgs, ReaddirRes, OpenArgs, StatReply, PreadArgs, PwriteArgs, LockArgs,
  RenameArgs, FtruncateArgs, RandArgs, RandRes, FallocateArgs, SymlinkArgs, ReadlinkArgs,
  StatfsReply,
}

-- A remote procedure with arguments `A` and result `B`.
abbrev pub Remote : Type 0 → Type 0 → Type 0 → Type 0
Remote S A B = A → S → Option B × S

pub record Stubs (S : Type 0) : Type 0 where
  pub null_1 : Remote S (Unit {0}) (Unit {0})
  pub readdir_1 : Remote S ReaddirArgs ReaddirRes
  pub stat_1 : Remote S Bytes (Result StatReply)
  pub open_1 : Remote S OpenArgs (Result ℤ)
  pub lock_1 : Remote S LockArgs ErrnoStat
  pub pread_1 : Remote S PreadArgs (Result Bytes)
  pub pwrite_1 : Remote S PwriteArgs ErrnoStat
  pub close_1 : Remote S ℤ ErrnoStat
  pub mkdir_1 : Remote S Bytes ErrnoStat
  pub rmdir_1 : Remote S Bytes ErrnoStat
  pub rename_1 : Remote S RenameArgs ErrnoStat
  pub unlink_1 : Remote S Bytes ErrnoStat
  pub ftruncate_1 : Remote S FtruncateArgs ErrnoStat
  pub rand_1 : Remote S RandArgs RandRes
  pub fallocate_1 : Remote S FallocateArgs ErrnoStat
  pub symlink_1 : Remote S SymlinkArgs ErrnoStat
  pub readlink_1 : Remote S ReadlinkArgs (Result Bytes)
  pub statfs_1 : Remote S Bytes (Result StatfsReply)
  pub fsync_1 : Remote S ℤ ErrnoStat
