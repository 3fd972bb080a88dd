-- ===== src/Examples.antt =====
-- A machine with one directory and one file, a client that is connected to a server on it, and the
-- theorems of the development at inputs of theirs.
mod Tests
mod Programs
mod Processes
mod Children
mod Clients
mod Wired
mod Connections
mod Sorting
mod Suites
mod Mounts
use icbinn.Common.{
  ℕ, ◌≤◌, ◌≡◌, refl, ℤ, pos, Bytes, Option, true, none, some, List, [], ◌∷◌, length, take, drop,
  length-take, arith,
}
use icbinn.Protocol.{ReaddirArgs, OpenArgs}
use icbinn.Kernel.{Kernel, Sys, returned, failed, Stat, Dir}
use icbinn.Kernel.Documented.{Documented}
use icbinn.Kernel.RegularFile.{write_at, ReadsAs, WritesAs}
use icbinn.Server.State.{Server, Run, done, exited, fault, init}
use icbinn.Server.Files.{
  stat_1_svc, statfs_1_svc, open_1_svc, lock_1_svc, readlink_1_svc, pread_1_svc, ftruncate_1_svc,
  fallocate_1_svc, pwrite_1_svc, close_1_svc, fsync_1_svc, rand_1_svc,
}
use icbinn.Server.Names.{symlink_1_svc, mkdir_1_svc, rmdir_1_svc, rename_1_svc, unlink_1_svc}
use icbinn.Server.Readdir.{readdir_1_svc}
use icbinn.Server.Overruns.{ChecksPaths}
use icbinn.Client.Stubs.{Stubs, Remote}
use icbinn.Wire.Link.{Carries, CarriesRun}

abbrev pub a_directory : Stat
a_directory = record { mode = 0o40755; size = 0 }

abbrev pub a_file : Stat
a_file = record { mode = 0o100644; size = 3 }

-- Every path of one byte is the directory.
abbrev pub looked_up : Bytes → Sys Stat
looked_up [] = failed 2
looked_up (c ∷ []) = returned a_directory
looked_up (c ∷ d ∷ path) = failed 2

-- ".", "a" and "bc"
abbrev pub stream : Dir
stream = record { handle = 4; names = (46 ∷ []) ∷ (97 ∷ []) ∷ (98 ∷ 99 ∷ []) ∷ [] }

-- The state of the machine is the content of its file, which every descriptor has open.
abbrev pub machine : Kernel Bytes
machine = record {
  stat = λ path w. (looked_up path, w);
  lstat = λ path w. (returned a_file, w);
  statvfs = λ path w. (failed 2, w);
  opendir = λ path w. (returned stream, w);
  closedir = λ handle w. w;
  malloc = λ n w. (true, w);
  open_file = λ path flags mode w. (returned 3, w);
  set_lock = λ fd type w. (returned tt, w);
  readlink = λ path n w. (failed 22, w);
  symlink = λ from to w. (failed 13, w);
  pread = λ fd n offset w. (returned (take n (drop offset w)), w);
  pwrite = λ fd bytes offset w. (returned (length bytes), write_at w offset bytes);
  ftruncate = λ fd n w. (returned tt, take n w);
  fallocate = λ fd mode offset n w. (failed 95, w);
  close = λ fd w. (returned tt, w);
  fsync = λ fd w. (returned tt, w);
  mkdir = λ path mode w. (failed 13, w);
  rmdir = λ path w. (failed 13, w);
  rename = λ from to w. (failed 13, w);
  unlink = λ path w. (failed 13, w);
  read = λ fd n w. (returned (take n (7 ∷ 8 ∷ 9 ∷ [])), w);
}

-- A machine that writes nothing, and reports 0 bytes.
abbrev pub lossy : Kernel Bytes
lossy = record machine { pwrite = λ fd bytes offset w. (returned 0, w) }

-- A machine on which every path is the directory.
abbrev pub lenient : Kernel Bytes
lenient = record machine { stat = λ path w. (returned a_directory, w) }

abbrev at_most : (n : ℕ) (bytes : Bytes) → length (take n bytes) ≤ n
at_most n bytes = omega (arith, length-take n bytes)

pub machine-Documented : Documented machine
machine-Documented = record {
  lstat = λ path w. tt;
  statvfs = λ path w. omega arith;
  open_file = λ path flags mode w. tt;
  set_lock = λ fd type w. tt;
  readlink = λ path n w. omega arith;
  symlink = λ from to w. omega arith;
  pread = λ fd n offset w. at_most n (drop offset w);
  pwrite = λ fd bytes offset w. tt;
  ftruncate = λ fd n w. tt;
  fallocate = λ fd mode offset n w. omega arith;
  close = λ fd w. tt;
  fsync = λ fd w. tt;
  mkdir = λ path mode w. omega arith;
  rmdir = λ path w. omega arith;
  rename = λ from to w. omega arith;
  unlink = λ path w. omega arith;
  read = λ fd n w. at_most n (7 ∷ 8 ∷ 9 ∷ []);
}

looked_up_lem : (path : Bytes) (sbuf : Stat) → looked_up path ≡ returned sbuf → length path ≡ 1
looked_up_lem [] sbuf e = ground arith
looked_up_lem (c ∷ []) sbuf e = refl
looked_up_lem (c ∷ d ∷ path) sbuf e = ground arith

pub machine-ChecksPaths : ChecksPaths machine
machine-ChecksPaths path w sbuf e =
    (omega (arith, looked_up_lem path sbuf e), omega (arith, looked_up_lem path sbuf e))

pub machine-WritesAs : WritesAs machine (pos 3) (λ w. w)
machine-WritesAs = record {
  complete = λ bytes offset w low. refl;
  written = λ bytes offset w low. refl;
}

pub machine-ReadsAs : (w : Bytes) → ReadsAs machine (pos 3) w w
machine-ReadsAs w n offset low = refl

-- A connection whose state is the server itself.
module _ {W : Type 0} (k : Kernel W) where
  abbrev through : {A B : Type 0} → (A → Server W → B × Server W) → Remote (Server W) A B
  through handler a s = let (res, s') = handler a s in (some res, s')

  abbrev outcome : {B : Type 0} → Server W → Run (B × Server W) → Option B × Server W
  outcome s (done (res, s')) = (some res, s')
  outcome s exited = (none, s)
  outcome s fault = (none, s)

  abbrev pub direct : Stubs (Server W)
  direct = record {
    null_1 = λ a s. (some tt, s);
    readdir_1 = λ a s. outcome s (readdir_1_svc k a s);
    stat_1 = through (stat_1_svc k);
    open_1 = through (open_1_svc k);
    lock_1 = through (lock_1_svc k);
    pread_1 = through (pread_1_svc k);
    pwrite_1 = through (pwrite_1_svc k);
    close_1 = through (close_1_svc k);
    mkdir_1 = through (mkdir_1_svc k);
    rmdir_1 = through (rmdir_1_svc k);
    rename_1 = through (rename_1_svc k);
    unlink_1 = through (unlink_1_svc k);
    ftruncate_1 = through (ftruncate_1_svc k);
    rand_1 = through (rand_1_svc k);
    fallocate_1 = through (fallocate_1_svc k);
    symlink_1 = through (symlink_1_svc k);
    readlink_1 = through (readlink_1_svc k);
    statfs_1 = through (statfs_1_svc k);
    fsync_1 = through (fsync_1_svc k);
  }

  pub direct_pread : Carries (λ s. s) direct.pread_1 (pread_1_svc k)
  direct_pread a s = record { replied = refl; advanced = refl }

  pub direct_pwrite : Carries (λ s. s) direct.pwrite_1 (pwrite_1_svc k)
  direct_pwrite a s = record { replied = refl; advanced = refl }

  pub direct_open : Carries (λ s. s) direct.open_1 (open_1_svc k)
  direct_open a s = record { replied = refl; advanced = refl }

  pub direct_close : Carries (λ s. s) direct.close_1 (close_1_svc k)
  direct_close a s = record { replied = refl; advanced = refl }

  pub direct_ftruncate : Carries (λ s. s) direct.ftruncate_1 (ftruncate_1_svc k)
  direct_ftruncate a s = record { replied = refl; advanced = refl }

  pub direct_stat : Carries (λ s. s) direct.stat_1 (stat_1_svc k)
  direct_stat a s = record { replied = refl; advanced = refl }

  pub direct_fallocate : Carries (λ s. s) direct.fallocate_1 (fallocate_1_svc k)
  direct_fallocate a s = record { replied = refl; advanced = refl }

  pub direct_readdir : CarriesRun (λ s. s) direct.readdir_1 (readdir_1_svc k)
  direct_readdir a s res v e = rw e (refl, refl)
