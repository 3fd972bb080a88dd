-- ===== src/Examples/Mounts.antt =====
-- The FUSE file system on a file, on a directory, and on a connection that is lost.
use icbinn.Common.{◌≡◌, refl, ℕ, ℤ, pos, Bytes, Option, none, some, List, [], ◌∷◌, ◌++◌, arith}
use icbinn.Kernel.{Stat}
use icbinn.Server.State.{Server, init}
use icbinn.Client.Stubs.{Stubs, Remote}
use icbinn.Client.Calls.{StatBuf, Dirent}
use icbinn.Suite.{test_dir}
use icbinn.Fuse.{icbinnfs_truncate, icbinnfs_readdir_loop}
use icbinn.Fuse.Truncate.{truncate-truncated}
use icbinn.Fuse.Listing.{filled, readdir-filled}
use icbinn.Fuse.Table.{Mounted, readdir, icbinnfs_oper}
use icbinn.Fuse.Lost.{IsLost, EndsWith, icbinnfs_oper_lost}
use icbinn.Examples.{
  machine, direct, direct_open, direct_close, direct_ftruncate, direct_stat, direct_readdir,
}
use icbinn.Examples.Suites.{test_machine, test_entries, test_machine-IsStill, test_entries-IsListed}

abbrev long_file : Server Bytes
long_file = init (1 ∷ 2 ∷ 3 ∷ [])

truncate-truncated_example :
    let (rv, s') = icbinnfs_truncate (direct machine) (97 ∷ []) 2 long_file in
    (rv ≡ pos 0) × (s'.world ≡ 1 ∷ 2 ∷ [])
truncate-truncated_example =
    truncate-truncated machine (direct machine) (λ s. s) (direct_open machine)
      (direct_ftruncate machine) (direct_close machine) (97 ∷ []) 2 long_file (omega arith) tt

-- A buffer that takes every entry.
abbrev Names : Type 0
Names = List (Bytes × Option Stat)

abbrev take_entry : Bytes → Option Stat → Names → ℤ × Names
take_entry name st names = (pos 0, names ++ (name, st) ∷ [])

abbrev unset_stat : StatBuf
unset_stat = record { size = 77; type = pos 2 }

abbrev unset_entry : Dirent
unset_entry = record { name = []; type = pos 0 }

abbrev served : Server Bytes
served = init []

readdir-filled_example :
    (s' : Server Bytes) × (icbinnfs_readdir_loop
        (direct test_machine)
        take_entry
        unset_stat
        test_dir
        4
        0
        unset_entry
        []
        served
      ≡ some (pos 0, filled test_machine take_entry unset_stat [] test_dir test_entries [], s'))
    × (s'.world ≡ [])
readdir-filled_example =
    readdir-filled test_machine (direct test_machine) (λ s. s) (direct_readdir test_machine)
      (direct_stat test_machine) test_machine-IsStill [] take_entry (λ name st names. refl)
      unset_stat test_dir test_entries test_entries-IsListed (omega arith) 4 unset_entry [] served
      refl (omega arith)

-- A connection that is lost.
abbrev silent : {A B : Type 0} → Remote ℕ A B
silent a s = (none, s)

abbrev dead : Stubs ℕ
dead = record {
  null_1 = silent;
  readdir_1 = silent;
  stat_1 = silent;
  open_1 = silent;
  lock_1 = silent;
  pread_1 = silent;
  pwrite_1 = silent;
  close_1 = silent;
  mkdir_1 = silent;
  rmdir_1 = silent;
  rename_1 = silent;
  unlink_1 = silent;
  ftruncate_1 = silent;
  rand_1 = silent;
  fallocate_1 = silent;
  symlink_1 = silent;
  readlink_1 = silent;
  statfs_1 = silent;
  fsync_1 = silent;
}

dead-IsLost : IsLost dead
dead-IsLost = record {
  readdir = λ a s. refl;
  stat = λ a s. refl;
  open_file = λ a s. refl;
  lock = λ a s. refl;
  pread = λ a s. refl;
  pwrite = λ a s. refl;
  close = λ a s. refl;
  mkdir = λ a s. refl;
  rmdir = λ a s. refl;
  rename = λ a s. refl;
  unlink = λ a s. refl;
  ftruncate = λ a s. refl;
  fallocate = λ a s. refl;
  symlink = λ a s. refl;
  readlink = λ a s. refl;
  statfs = λ a s. refl;
  fsync = λ a s. refl;
}

abbrev mounted : Mounted Names
mounted = record {
  filler = take_entry;
  entries = [];
  ist = unset_stat;
  de = unset_entry;
  target = [];
  space = record { bsize = 0; blocks = 0; bfree = 0; bavail = 0 };
  fuel = 1;
}

icbinnfs_oper_lost_example :
    EndsWith mounted dead dead-IsLost (pos 0) (icbinnfs_oper mounted dead (readdir test_dir) 0)
icbinnfs_oper_lost_example =
    icbinnfs_oper_lost mounted dead dead-IsLost (readdir test_dir) 0 (omega arith)
