-- ===== src/Kernel.antt =====
-- What the programs call of the operating system. `Kernel W` is a parameter of every definition
-- that makes a system call; `W` is the state of the machine outside the program. A call that
-- returns a negative number and sets `errno` is a `failed errno`.
pub mod Process
pub mod Documented
pub mod RegularFile
use icbinn.Common.{ℕ, ℤ, Bytes, Bool, List, ◌/◌, ◌%◌, ◌==◌, ◌≡◌, refl, ◌⊎◌, inl, inr}

pub data Sys (A : Type 0) : Type 0 where
  returned : A → Sys A
  failed : (errno : ℕ) → Sys A

-- To split on the outcome of a call and keep the equation.
pub Sys-cases :
    {A : Type 0} (r : Sys A) → ((errno : ℕ) × (r ≡ failed errno)) ⊎ ((a : A) × (r ≡ returned a))
Sys-cases (failed errno) = inl (errno, refl)
Sys-cases (returned a) = inr (a, refl)

-- the error numbers that the programs name themselves
abbrev pub enoent : ℕ
enoent = 2

abbrev pub einval : ℕ
einval = 22

-- `struct stat`, the fields that are read
pub record Stat : Type 0 where
  pub mode : ℕ
  pub size : ℕ

pub record StatVfs : Type 0 where
  pub bsize : ℕ
  pub blocks : ℕ
  pub bfree : ℕ
  pub bavail : ℕ

-- A directory stream: the names that `readdir` is going to return before it returns NULL.
pub record Dir : Type 0 where
  pub handle : ℕ
  pub names : List Bytes

pub data FlockType : Type 0 where
  rdlck wrlck unlck : FlockType

pub record Kernel (W : Type 0) : Type 0 where
  pub stat : Bytes → W → Sys Stat × W
  pub lstat : Bytes → W → Sys Stat × W
  pub statvfs : Bytes → W → Sys StatVfs × W
  pub opendir : Bytes → W → Sys Dir × W
  pub closedir : ℕ → W → W
  pub malloc : ℕ → W → Bool × W
  pub open_file : Bytes → (flags mode : ℕ) → W → Sys ℕ × W
  -- `fcntl` with F_SETLK, for the whole file
  pub set_lock : ℤ → FlockType → W → Sys (Unit {0}) × W
  pub readlink : Bytes → ℕ → W → Sys Bytes × W
  pub symlink : (oldpath newpath : Bytes) → W → Sys (Unit {0}) × W
  pub pread : ℤ → (count offset : ℕ) → W → Sys Bytes × W
  pub pwrite : ℤ → Bytes → (offset : ℕ) → W → Sys ℕ × W
  pub ftruncate : ℤ → ℕ → W → Sys (Unit {0}) × W
  pub fallocate : ℤ → ℤ → (offset length : ℕ) → W → Sys (Unit {0}) × W
  pub close : ℤ → W → Sys (Unit {0}) × W
  pub fsync : ℤ → W → Sys (Unit {0}) × W
  pub mkdir : Bytes → ℕ → W → Sys (Unit {0}) × W
  pub rmdir : Bytes → W → Sys (Unit {0}) × W
  pub rename : (from to : Bytes) → W → Sys (Unit {0}) × W
  pub unlink : Bytes → W → Sys (Unit {0}) × W
  pub read : ℤ → ℕ → W → Sys Bytes × W

-- S_ISLNK, S_ISDIR and S_ISREG of <sys/stat.h>: the bits of S_IFMT (0170000) of the mode.
abbrev file_format : ℕ → ℕ
file_format mode = mode / 4096 % 16

abbrev pub s_islnk : ℕ → Bool
s_islnk mode = file_format mode == 10

abbrev pub s_isdir : ℕ → Bool
s_isdir mode = file_format mode == 4

abbrev pub s_isreg : ℕ → Bool
s_isreg mode = file_format mode == 8
