-- ===== src/Fuse.antt =====
-- icbinn-fuse/src/icbinn-fs.c: the file system that hands the calls of FUSE to the client library.
pub mod Flags
pub mod Attributes
pub mod Start
pub mod Arguments
pub mod Listing
pub mod Truncate
pub mod Table
pub mod Lost
-- Each operation takes the state of the connection and returns the C result with what it has stored
-- and the new state. The calls of FUSE's own library, `filler` among them, are parameters.
use Prim.Native.Nat.{bit_or}
use icbinn.Common.{
  ℕ, zero, suc, ◌+◌, ◌-◌, ◌%◌, ◌^◌, ℤ, pos, negsuc, is_negative, is_number, is_nonzero, pos_part,
  Bytes, Bool, true, Option, none, some, List, [], ◌∷◌, ◌++◌, take, ltb, if◌then◌else◌,
}
use icbinn.Protocol.{StatfsReply}
use icbinn.Kernel.{Stat, StatVfs}
use icbinn.Server.State.{flag_set}
use icbinn.Server.Files.{rdonly, wronly, rdwr, creat, trunc}
use icbinn.Client.Stubs.{Stubs}
use icbinn.Client.Calls.{
  StatBuf, Dirent, type_file, type_directory, type_link, icbinn_stat, icbinn_readent, icbinn_open,
  icbinn_ftruncate, icbinn_close, icbinn_unlink, icbinn_mkdir, icbinn_rmdir, icbinn_rename,
  icbinn_fsync, icbinn_symlink, icbinn_readlink, icbinn_statfs, icbinn_fallocate, icbinn_lock,
}
use icbinn.Client.Transfer.{Filling, icbinn_pread, icbinn_pwrite}

-- An `ssize_t` assigned to an `int`, of 32 bits.
unfoldable pub as_int : ℤ → ℤ
as_int (pos n) =
    let low = n % 2 ^ 32 in if ltb low (2 ^ 31) then pos low else negsuc (2 ^ 32 - 1 - low)
as_int (negsuc n) =
    let low = n % 2 ^ 32 in if ltb low (2 ^ 31) then negsuc low else pos (2 ^ 32 - 1 - low)

abbrev pub max_symlink_size : ℕ
max_symlink_size = 512

-- `-ENOENT`, `-ENOMEM` and `-ENODATA`
abbrev pub minus_enoent : ℤ
minus_enoent = negsuc 1

abbrev pub minus_enomem : ℤ
minus_enomem = negsuc 11

abbrev pub minus_enodata : ℤ
minus_enodata = negsuc 60

unfoldable pub translate_open_flags : ℕ → ℕ
translate_open_flags f =
    let f1 = if flag_set f 0o100 then bit_or 0 creat else 0 in
    let f2 = if flag_set f 0o1000 then bit_or f1 trunc else f1 in
    let f3 = if flag_set f 1 then bit_or f2 wronly else f2 in
    let f4 = if flag_set f 2 then bit_or f3 rdwr else f3 in
    if flag_set f 0 then bit_or f4 rdonly else f4

-- LOCK_SH, LOCK_EX and LOCK_UN are 1, 2 and 8.
unfoldable pub translate_flock_flags : ℕ → ℤ
translate_flock_flags f =
    if flag_set f 1
    then pos (bit_or 0 0)
    else if flag_set f 2
    then pos (bit_or 0 1)
    else if flag_set f 8
    then pos (bit_or 0 2)
    else pos 0

-- The mode of `struct stat` for a type; `none` is the branch that returns -ENOENT.
abbrev pub type_mode : ℤ → Option ℕ
type_mode (pos zero) = some 0o100644
type_mode (pos (suc zero)) = some 0o40755
type_mode (pos (suc (suc zero))) = some 0o120644
type_mode _ = none

abbrev pub file_attributes : StatBuf → ℤ × Option Stat
file_attributes ist = elim (type_mode ist.type) [
  | none ↦ (minus_enoent, none)
  | some mode ↦ (pos 0, some (record { mode = mode; size = ist.size }))
]

abbrev pub stored_or : {A : Type 0} → Option A → A → A
stored_or none old = old
stored_or (some new) old = new

abbrev pub first_or : {A : Type 0} → List A → A → A
first_or [] old = old
first_or (x ∷ xs) old = x

-- The result of `icbinn_open` as the operations take it: a descriptor is stored in `fi->fh`.
abbrev pub opened_fh : ℤ → ℤ × Option ℤ
opened_fh fd = if is_negative fd then (fd, none) else (pos 0, some fd)

-- The buffer of 256 bytes that the path of an entry is printed to.
abbrev pub entry_path : Bytes → Bytes → Bytes
entry_path path name = take 255 (path ++ 47 ∷ name)

module _ {S : Type 0} (icb : Stubs S) where
  -- `ist` is what the variable of that name holds before it is set.
  unfoldable pub icbinnfs_getattr : StatBuf → Bytes → S → ℤ × Option Stat × S
  icbinnfs_getattr ist path s =
      let (rv, stored, s') = icbinn_stat icb (some path) true s in
      if is_negative rv
      then (rv, none, s')
      else let (ret, st) = file_attributes (stored_or stored ist) in (ret, st, s')

  -- `filler` takes an entry and adds it to FUSE's buffer, a state of type `F`; a number other than
  -- 0 says that it is full. The loop ends when `icbinn_readent` finds no entry; `none` is a loop
  -- that is still running when the fuel is spent.
  unfoldable pub icbinnfs_readdir_loop :
      {F : Type 0}
      → (filler : Bytes → Option Stat → F → ℤ × F) → StatBuf
      → Bytes
      → (fuel i : ℕ) → Dirent
      → F
      → S
      → Option (ℤ × F × S)
  unfolding icbinnfs_getattr
  icbinnfs_readdir_loop filler ist path zero i de buf s = none
  icbinnfs_readdir_loop filler ist path (suc fuel) i de buf s =
      let (rv, found, s1) = icbinn_readent icb path i s in
      let de' = first_or found de in
      let (statrv, st, s2) = icbinnfs_getattr ist (entry_path path de'.name) s1 in
      let (full, buf') = filler de'.name (if is_nonzero statrv then none else st) buf in
      let rest = icbinnfs_readdir_loop filler ist path fuel (suc i) de' buf' s2 in
      if is_nonzero rv
      then some (pos 0, buf, s1)
      else if is_nonzero full
      then some (minus_enomem, buf', s2)
      else rest

  unfoldable pub icbinnfs_open : Bytes → (flags : ℕ) → S → ℤ × Option ℤ × S
  unfolding translate_open_flags
  icbinnfs_open path flags s =
      let (fd, s') = icbinn_open icb path (translate_open_flags flags) s in
      let (ret, fh) = opened_fh fd in (ret, fh, s')

  unfoldable pub icbinnfs_create : Bytes → S → ℤ × Option ℤ × S
  icbinnfs_create path s =
      let (fd, s') = icbinn_open icb path (bit_or (bit_or creat trunc) wronly) s in
      let (ret, fh) = opened_fh fd in (ret, fh, s')

  unfoldable pub icbinnfs_read : (fh : ℤ) → (size offset : ℕ) → Filling S → ℤ × Filling S
  unfolding as_int
  icbinnfs_read fh size offset t =
      let (rv, t') = icbinn_pread icb fh size offset t in (as_int rv, t')

  unfoldable pub icbinnfs_write : (fh : ℤ) → Bytes → (size offset : ℕ) → S → ℤ × S
  unfolding as_int
  icbinnfs_write fh buf size offset s =
      let (rv, s') = icbinn_pwrite icb fh buf size offset s in (as_int rv, s')

  unfoldable pub icbinnfs_truncate : Bytes → (offset : ℕ) → S → ℤ × S
  icbinnfs_truncate path offset s =
      let (fd, s1) = icbinn_open icb path wronly s in
      let (rv, s2) = icbinn_ftruncate icb fd offset s1 in
      let (_, s3) = icbinn_close icb fd s2 in if is_negative fd then (fd, s1) else (rv, s3)

  unfoldable pub icbinnfs_ftruncate : (fh : ℤ) → (offset : ℕ) → S → ℤ × S
  icbinnfs_ftruncate fh offset = icbinn_ftruncate icb fh offset

  unfoldable pub icbinnfs_unlink : Bytes → S → ℤ × S
  icbinnfs_unlink path = icbinn_unlink icb path

  unfoldable pub icbinnfs_mkdir : Bytes → S → ℤ × S
  icbinnfs_mkdir path = icbinn_mkdir icb path

  unfoldable pub icbinnfs_rmdir : Bytes → S → ℤ × S
  icbinnfs_rmdir path = icbinn_rmdir icb path

  unfoldable pub icbinnfs_rename : (old new : Bytes) → S → ℤ × S
  icbinnfs_rename old new = icbinn_rename icb old new

  unfoldable pub icbinnfs_release : (fh : ℤ) → S → ℤ × S
  icbinnfs_release fh = icbinn_close icb fh

  unfoldable pub icbinnfs_fsync : (fh : ℤ) → S → ℤ × S
  icbinnfs_fsync fh = icbinn_fsync icb fh

  -- not supported by the server
  unfoldable pub icbinnfs_utimens : Bytes → S → ℤ × S
  icbinnfs_utimens path s = (pos 0, s)

  unfoldable pub icbinnfs_getxattr : Bytes → S → ℤ × S
  icbinnfs_getxattr path s = (minus_enodata, s)

  unfoldable pub icbinnfs_symlink : (oldpath newpath : Bytes) → S → ℤ × S
  icbinnfs_symlink oldpath newpath = icbinn_symlink icb oldpath newpath

  -- The C string that `strncpy` copies to the buffer of `bufsz` bytes. `_buf` is what the array of
  -- that name holds where the reply has not set it.
  unfoldable pub icbinnfs_readlink : Bytes → Bytes → (bufsz : ℕ) → S → ℤ × Option Bytes × S
  icbinnfs_readlink _buf path bufsz s =
      let (rv, stored, s') = icbinn_readlink icb (some path) true max_symlink_size s in
      let target = stored_or stored _buf in
      let len = if ltb (pos_part rv) max_symlink_size then pos_part rv else 511 in
      if is_negative rv then (rv, none, s') else (pos 0, some (take bufsz (take len target)), s')

  unfoldable pub icbinnfs_statfs : StatfsReply → Bytes → S → ℤ × Option StatVfs × S
  icbinnfs_statfs st path s =
      let (rv, stored, s') = icbinn_statfs icb (some path) true s in
      let st' = stored_or stored st in
      if is_number rv 0
      then (
        rv,
        some (record {
          bsize = st'.bsize;
          blocks = st'.blocks;
          bfree = st'.bfree;
          bavail = st'.bavail;
        }),
        s',
      )
      else (rv, none, s')

  unfoldable pub icbinnfs_fallocate : (fh mode : ℤ) → (offset len : ℕ) → S → ℤ × S
  icbinnfs_fallocate fh mode offset len = icbinn_fallocate icb fh mode offset len

  unfoldable pub icbinnfs_flock : (fh : ℤ) → (op : ℕ) → S → ℤ × S
  unfolding translate_flock_flags
  icbinnfs_flock fh op = icbinn_lock icb fh (translate_flock_flags op)
