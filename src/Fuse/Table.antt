-- ===== src/Fuse/Table.antt =====
-- icbinn-fuse/src/icbinn-fs.c, `icbinnfs_oper`: the table by which FUSE finds the functions.
use icbinn.Common.{ℕ, ℤ, Bytes, Option, none, some}
use icbinn.Protocol.{StatfsReply}
use icbinn.Kernel.{Stat}
use icbinn.Client.Stubs.{Stubs}
use icbinn.Client.Calls.{StatBuf, Dirent}
use icbinn.Client.Transfer.{Filling}
use icbinn.Fuse.{
  icbinnfs_flock, icbinnfs_getattr, icbinnfs_getxattr, icbinnfs_readdir_loop, icbinnfs_create,
  icbinnfs_open, icbinnfs_read, icbinnfs_write, icbinnfs_truncate, icbinnfs_ftruncate,
  icbinnfs_fallocate, icbinnfs_unlink, icbinnfs_mkdir, icbinnfs_rmdir, icbinnfs_utimens,
  icbinnfs_rename, icbinnfs_readlink, icbinnfs_symlink, icbinnfs_statfs, icbinnfs_fsync,
  icbinnfs_release,
}

-- A call of FUSE, by the field of the table that it goes through. `size` and `offset` are in bytes,
-- and `buf` is FUSE's memory.
pub data Operation : Type 0 where
  flock : (fh : ℤ) (op : ℕ) → Operation
  getattr : (path : Bytes) → Operation
  getxattr : (path : Bytes) → Operation
  readdir : (path : Bytes) → Operation
  create : (path : Bytes) → Operation
  open_file : (path : Bytes) (flags : ℕ) → Operation
  read : (fh : ℤ) (buf : Bytes) (size offset : ℕ) → Operation
  write : (fh : ℤ) (buf : Bytes) (size offset : ℕ) → Operation
  truncate : (path : Bytes) (offset : ℕ) → Operation
  ftruncate : (fh : ℤ) (offset : ℕ) → Operation
  fallocate : (fh mode : ℤ) (offset len : ℕ) → Operation
  unlink : (path : Bytes) → Operation
  mkdir : (path : Bytes) → Operation
  rmdir : (path : Bytes) → Operation
  utimens : (path : Bytes) → Operation
  rename : (old new : Bytes) → Operation
  readlink : (path : Bytes) (bufsz : ℕ) → Operation
  symlink : (oldpath newpath : Bytes) → Operation
  statfs : (path : Bytes) → Operation
  fsync : (fh : ℤ) → Operation
  release : (fh : ℤ) → Operation

-- FUSE's buffer and the function that fills it; what variables hold before they are set; and the
-- fuel for the loop of READDIR.
pub record Mounted (F : Type 0) : Type 0 where
  pub filler : Bytes → Option Stat → F → ℤ × F
  pub entries : F
  pub ist : StatBuf
  pub de : Dirent
  pub target : Bytes
  pub space : StatfsReply
  pub fuel : ℕ

-- The C result, the entries that FUSE has been given, and the state of the connection.
pub record Served (S F : Type 0) : Type 0 where
  pub number : ℤ
  pub entries : F
  pub conn : S

module _ {S F : Type 0} (m : Mounted F) (icb : Stubs S) where
  abbrev finished : ℤ × S → Option (Served S F)
  finished (number, s) = some (record { number = number; entries = m.entries; conn = s })

  abbrev finished_with : {A : Type 0} → ℤ × A × S → Option (Served S F)
  finished_with (number, _, s) = finished (number, s)

  abbrev finished_read : ℤ × Filling S → Option (Served S F)
  finished_read (number, t) = finished (number, t.conn)

  abbrev listed : Option (ℤ × F × S) → Option (Served S F)
  listed none = none
  listed (some (number, entries, s)) =
      some (record { number = number; entries = entries; conn = s })

  -- Of what an operation stores for FUSE the entries alone are kept. `none` is the loop of READDIR,
  -- still running.
  unfoldable pub icbinnfs_oper : Operation → S → Option (Served S F)
  icbinnfs_oper (flock fh op) s = finished (icbinnfs_flock icb fh op s)
  icbinnfs_oper (getattr path) s = finished_with (icbinnfs_getattr icb m.ist path s)
  icbinnfs_oper (getxattr path) s = finished (icbinnfs_getxattr icb path s)
  icbinnfs_oper (readdir path) s =
      listed (icbinnfs_readdir_loop icb m.filler m.ist path m.fuel 0 m.de m.entries s)
  icbinnfs_oper (create path) s = finished_with (icbinnfs_create icb path s)
  icbinnfs_oper (open_file path flags) s = finished_with (icbinnfs_open icb path flags s)
  icbinnfs_oper (read fh buf size offset) s =
      finished_read (icbinnfs_read icb fh size offset (record { buf = buf; conn = s }))
  icbinnfs_oper (write fh buf size offset) s = finished (icbinnfs_write icb fh buf size offset s)
  icbinnfs_oper (truncate path offset) s = finished (icbinnfs_truncate icb path offset s)
  icbinnfs_oper (ftruncate fh offset) s = finished (icbinnfs_ftruncate icb fh offset s)
  icbinnfs_oper (fallocate fh mode offset len) s =
      finished (icbinnfs_fallocate icb fh mode offset len s)
  icbinnfs_oper (unlink path) s = finished (icbinnfs_unlink icb path s)
  icbinnfs_oper (mkdir path) s = finished (icbinnfs_mkdir icb path s)
  icbinnfs_oper (rmdir path) s = finished (icbinnfs_rmdir icb path s)
  icbinnfs_oper (utimens path) s = finished (icbinnfs_utimens icb path s)
  icbinnfs_oper (rename old new) s = finished (icbinnfs_rename icb old new s)
  icbinnfs_oper (readlink path bufsz) s =
      finished_with (icbinnfs_readlink icb m.target path bufsz s)
  icbinnfs_oper (symlink oldpath newpath) s = finished (icbinnfs_symlink icb oldpath newpath s)
  icbinnfs_oper (statfs path) s = finished_with (icbinnfs_statfs icb m.space path s)
  icbinnfs_oper (fsync fh) s = finished (icbinnfs_fsync icb fh s)
  icbinnfs_oper (release fh) s = finished (icbinnfs_release icb fh s)
