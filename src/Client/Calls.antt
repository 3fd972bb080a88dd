-- ===== src/Client/Calls.antt =====
-- libicbinn/src: the functions of the client library that make one remote call each. A function
-- returns its C result, what it has stored through its last pointer (`none` for nothing), and the
-- new state. A pointer that the code compares with NULL is an `Option`, or a `Bool` that says
-- whether it is there.
use icbinn.Common.{
  ℕ, ◌%◌, ℤ, pos, minus_one, negate, Bytes, Bool, true, false, Option, none, some, List, [], ◌∷◌,
  length, take, ltb, is_number, if◌then◌else◌,
}
use icbinn.Protocol.{
  FileType, Result, ok, error, ErrnoStat, ReaddirRes, Entry, StatReply, StatfsReply, file,
  directory, link, unknown, other, max_name_len, u32_size,
}
use icbinn.Client.Stubs.{Stubs}

-- ICBINN_TYPE_FILE to ICBINN_TYPE_UNKNOWN
abbrev pub type_file : ℤ
type_file = pos 0

abbrev pub type_directory : ℤ
type_directory = pos 1

abbrev pub type_link : ℤ
type_link = pos 2

abbrev pub type_unknown : ℤ
type_unknown = pos 3

-- `struct icbinn_stat`
pub record StatBuf : Type 0 where
  pub size : ℕ
  pub type : ℤ

-- `struct icbinn_dirent`
pub record Dirent : Type 0 where
  pub name : Bytes
  pub type : ℤ

-- The end that most functions share: -1 if the call failed, -errno if the server reports an error,
-- and otherwise 0.
abbrev pub status_code : Option ErrnoStat → ℤ
status_code none = minus_one
status_code (some (error errno_code)) = negate errno_code
status_code (some (ok _)) = pos 0

-- `icbinn_fallocate` has no minus sign.
unfoldable pub fallocate_code : Option ErrnoStat → ℤ
fallocate_code none = minus_one
fallocate_code (some (error errno_code)) = errno_code
fallocate_code (some (ok _)) = pos 0

unfoldable pub open_code : Option (Result ℤ) → ℤ
open_code none = minus_one
open_code (some (error errno_code)) = negate errno_code
open_code (some (ok fd)) = fd

unfoldable pub stat_code : Option (Result StatReply) → ℤ × Option StatBuf
stat_code none = (minus_one, none)
stat_code (some (error errno_code)) = (negate errno_code, none)
stat_code (some (ok reply)) = elim reply.type [
  | file ↦ (pos 0, some (record { size = reply.size; type = type_file }))
  | directory ↦ (pos 0, some (record { size = reply.size; type = type_directory }))
  | link ↦ (pos 0, some (record { size = reply.size; type = type_link }))
  | unknown ↦ (pos 0, some (record { size = reply.size; type = type_unknown }))
  | other number ↦ (minus_one, none)
]

unfoldable pub statfs_code : Option (Result StatfsReply) → ℤ × Option StatfsReply
statfs_code none = (minus_one, none)
statfs_code (some (error errno_code)) = (negate errno_code, none)
statfs_code (some (ok reply)) = (pos 0, some reply)

-- A reply of more bytes than the buffer has is refused.
unfoldable pub readlink_code : ℕ → Option (Result Bytes) → ℤ × Option Bytes
readlink_code bufsz none = (minus_one, none)
readlink_code bufsz (some (error errno_code)) = (negate errno_code, none)
readlink_code bufsz (some (ok bytes)) =
    if ltb bufsz (length bytes) then (minus_one, none) else (pos (length bytes), some bytes)

abbrev pub dirent_type : FileType → ℤ
dirent_type file = type_file
dirent_type directory = type_directory
dirent_type link = type_link
dirent_type unknown = type_unknown
dirent_type (other number) = minus_one

-- `strncpy` of ICBINN_PROT_MAXNAMELEN bytes, and the zero behind them.
abbrev pub dirent : Entry → Dirent
dirent e = record { name = take max_name_len e.name; type = dirent_type e.type }

-- The loop over the linked list. It stores to `buf[0]`, `buf[1]`, … without a look at `count`.
unfoldable pub dirents : List Entry → List Dirent
dirents [] = []
dirents (e ∷ es) = dirent e ∷ dirents es

unfoldable pub readdir_code : Option ReaddirRes → ℤ × List Dirent
unfolding dirents
readdir_code none = (minus_one, [])
readdir_code (some none) = (minus_one, [])
readdir_code (some (some reply)) = let buf = dirents reply.entries in (pos (length buf), buf)

module _ {S : Type 0} (icb : Stubs S) where
  unfoldable pub icbinn_null : S → ℤ × S
  icbinn_null s =
      let (res, s') = icb.null_1 tt s in (elim res [ none ↦ minus_one | some _ ↦ pos 0 ], s')

  unfoldable pub icbinn_open : Bytes → (mode : ℕ) → S → ℤ × S
  unfolding open_code
  icbinn_open name mode s =
      let (res, s') = icb.open_1 (record { name = name; mode = mode }) s in (open_code res, s')

  unfoldable pub icbinn_lock : ℤ → (type : ℤ) → S → ℤ × S
  icbinn_lock fd type s =
      let (res, s') = icb.lock_1 (record { fd = fd; type = type }) s in (status_code res, s')

  unfoldable pub icbinn_close : ℤ → S → ℤ × S
  icbinn_close fd s = let (res, s') = icb.close_1 fd s in (status_code res, s')

  unfoldable pub icbinn_fsync : ℤ → S → ℤ × S
  icbinn_fsync fd s = let (res, s') = icb.fsync_1 fd s in (status_code res, s')

  unfoldable pub icbinn_ftruncate : ℤ → ℕ → S → ℤ × S
  icbinn_ftruncate fd length s =
      let (res, s') = icb.ftruncate_1 (record { fd = fd; length = length }) s in
      (status_code res, s')

  unfoldable pub icbinn_fallocate : ℤ → ℤ → (offset length : ℕ) → S → ℤ × S
  unfolding fallocate_code
  icbinn_fallocate fd mode offset length s =
      let (res, s') =
        icb.fallocate_1 (record { fd = fd; mode = mode; offset = offset; length = length }) s in
      (fallocate_code res, s')

  unfoldable pub icbinn_mkdir : Bytes → S → ℤ × S
  icbinn_mkdir path s = let (res, s') = icb.mkdir_1 path s in (status_code res, s')

  unfoldable pub icbinn_rmdir : Bytes → S → ℤ × S
  icbinn_rmdir path s = let (res, s') = icb.rmdir_1 path s in (status_code res, s')

  unfoldable pub icbinn_unlink : Bytes → S → ℤ × S
  icbinn_unlink path s = let (res, s') = icb.unlink_1 path s in (status_code res, s')

  unfoldable pub icbinn_rename : (from to : Bytes) → S → ℤ × S
  icbinn_rename from to s =
      let (res, s') = icb.rename_1 (record { from = from; to = to }) s in (status_code res, s')

  unfoldable pub icbinn_symlink : (oldpath newpath : Bytes) → S → ℤ × S
  icbinn_symlink oldpath newpath s =
      let (res, s') = icb.symlink_1 (record { oldpath = oldpath; newpath = newpath }) s in
      (status_code res, s')

  unfoldable pub icbinn_stat : Option Bytes → (buf : Bool) → S → ℤ × Option StatBuf × S
  unfolding stat_code
  icbinn_stat none buf s = (minus_one, none, s)
  icbinn_stat (some path) false s = (minus_one, none, s)
  icbinn_stat (some path) true s =
      let (res, s') = icb.stat_1 path s in let (ret, stored) = stat_code res in (ret, stored, s')

  unfoldable pub icbinn_statfs : Option Bytes → (buf : Bool) → S → ℤ × Option StatfsReply × S
  unfolding statfs_code
  icbinn_statfs none buf s = (minus_one, none, s)
  icbinn_statfs (some path) false s = (minus_one, none, s)
  icbinn_statfs (some path) true s =
      let (res, s') = icb.statfs_1 path s in
      let (ret, stored) = statfs_code res in (ret, stored, s')

  unfoldable pub icbinn_readlink :
      Option Bytes → (buf : Bool) → (bufsz : ℕ) → S → ℤ × Option Bytes × S
  unfolding readlink_code
  icbinn_readlink none buf bufsz s = (minus_one, none, s)
  icbinn_readlink (some path) false bufsz s = (minus_one, none, s)
  icbinn_readlink (some path) true bufsz s =
      let (res, s') = icb.readlink_1 (record { path = path; bufsz = bufsz }) s in
      let (ret, stored) = readlink_code bufsz res in (ret, stored, s')

  -- `offset` and `count` are of 64 bits here, and of 32 in the arguments.
  unfoldable pub icbinn_readdir : Bytes → (offset count : ℕ) → S → ℤ × List Dirent × S
  unfolding readdir_code
  icbinn_readdir dir offset count s =
      let (res, s') =
        icb.readdir_1 (record { dir = dir; offset = offset % u32_size; count = count % u32_size })
          s in
      let (n, buf) = readdir_code res in (n, buf, s')

  unfoldable pub icbinn_readent : Bytes → (offset : ℕ) → S → ℤ × List Dirent × S
  unfolding icbinn_readdir
  icbinn_readent dir offset s =
      let (n, buf, s') = icbinn_readdir dir offset 1 s in
      (if is_number n 1 then pos 0 else minus_one, buf, s')
