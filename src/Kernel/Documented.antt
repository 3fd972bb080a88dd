-- ===== src/Kernel/Documented.antt =====
-- What is documented of the system calls, as far as the replies of the server rest on it: `errno`
-- is positive after a failure, and no more bytes are read than were asked for.
use icbinn.Common.{ℕ, ℤ, ◌≤◌, ◌<◌, Bytes, length}
use icbinn.Kernel.{Kernel, Sys, returned, failed, FlockType}

-- The error number, if there is one, is positive.
abbrev pub HasErrno : {A : Type 0} → Sys A → Type 0
HasErrno (returned a) = Unit
HasErrno (failed errno) = 0 < errno

abbrev pub AtMost : ℕ → Sys Bytes → Type 0
AtMost n (returned bytes) = length bytes ≤ n
AtMost n (failed errno) = 0 < errno

pub record Documented {W : Type 0} (k : Kernel W) : Type 0 where
  pub lstat : (path : Bytes) (w : W) → HasErrno (k.lstat path w).0
  pub statvfs : (path : Bytes) (w : W) → HasErrno (k.statvfs path w).0
  pub open_file :
      (path : Bytes) (flags mode : ℕ) (w : W) → HasErrno (k.open_file path flags mode w).0
  pub set_lock : (fd : ℤ) (type : FlockType) (w : W) → HasErrno (k.set_lock fd type w).0
  pub readlink : (path : Bytes) (n : ℕ) (w : W) → AtMost n (k.readlink path n w).0
  pub symlink : (from to : Bytes) (w : W) → HasErrno (k.symlink from to w).0
  pub pread : (fd : ℤ) (n offset : ℕ) (w : W) → AtMost n (k.pread fd n offset w).0
  pub pwrite :
      (fd : ℤ) (bytes : Bytes) (offset : ℕ) (w : W) → HasErrno (k.pwrite fd bytes offset w).0
  pub ftruncate : (fd : ℤ) (n : ℕ) (w : W) → HasErrno (k.ftruncate fd n w).0
  pub fallocate : (fd mode : ℤ) (offset n : ℕ) (w : W) → HasErrno (k.fallocate fd mode offset n w).0
  pub close : (fd : ℤ) (w : W) → HasErrno (k.close fd w).0
  pub fsync : (fd : ℤ) (w : W) → HasErrno (k.fsync fd w).0
  pub mkdir : (path : Bytes) (mode : ℕ) (w : W) → HasErrno (k.mkdir path mode w).0
  pub rmdir : (path : Bytes) (w : W) → HasErrno (k.rmdir path w).0
  pub rename : (from to : Bytes) (w : W) → HasErrno (k.rename from to w).0
  pub unlink : (path : Bytes) (w : W) → HasErrno (k.unlink path w).0
  pub read : (fd : ℤ) (n : ℕ) (w : W) → AtMost n (k.read fd n w).0
