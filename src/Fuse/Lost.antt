-- ===== src/Fuse/Lost.antt =====
-- The FUSE file system on a connection that is lost.
use icbinn.Common.{
  ℕ, zero, suc, ◌<◌, ◌≡◌, refl, ap, ◌∙◌, ℤ, pos, minus_one, Bytes, Option, none, some, ◌==◌,
  if◌then◌else◌, arith,
}
use icbinn.Client.Stubs.{Stubs, Remote}
use icbinn.Client.Calls.{
  status_code, open_code, stat_code, statfs_code, readlink_code, readdir_code, fallocate_code,
  icbinn_open, icbinn_lock, icbinn_close, icbinn_fsync, icbinn_ftruncate, icbinn_fallocate,
  icbinn_mkdir, icbinn_rmdir, icbinn_unlink, icbinn_rename, icbinn_symlink, icbinn_stat,
  icbinn_statfs, icbinn_readlink, icbinn_readdir, icbinn_readent,
}
use icbinn.Client.Transfer.{
  Filling, piece, pread_reply, pwrite_code, transfer, icbinn_pread_worker, icbinn_pread,
  icbinn_pwrite_worker, icbinn_pwrite,
}
use icbinn.Client.Loop.{round, no_round}
use icbinn.Fuse.{
  as_int, minus_enodata, icbinnfs_flock, icbinnfs_getattr, icbinnfs_getxattr, icbinnfs_readdir_loop,
  icbinnfs_create, icbinnfs_open, icbinnfs_read, icbinnfs_write, icbinnfs_truncate,
  icbinnfs_ftruncate, icbinnfs_fallocate, icbinnfs_unlink, icbinnfs_mkdir, icbinnfs_rmdir,
  icbinnfs_utimens, icbinnfs_rename, icbinnfs_readlink, icbinnfs_symlink, icbinnfs_statfs,
  icbinnfs_fsync, icbinnfs_release,
}
use icbinn.Fuse.Table.{
  Operation, flock, getattr, getxattr, readdir, create, open_file, read, write, truncate, ftruncate,
  fallocate, unlink, mkdir, rmdir, utimens, rename, readlink, symlink, statfs, fsync, release,
  Mounted, Served, icbinnfs_oper,
}

-- No call gets an answer.
abbrev NoAnswer : {S A B : Type 0} → Remote S A B → Type 0
NoAnswer {S} {A} stub = (a : A) (s : S) → (stub a s).0 ≡ none

pub record IsLost {S : Type 0} (icb : Stubs S) : Type 0 where
  pub readdir : NoAnswer icb.readdir_1
  pub stat : NoAnswer icb.stat_1
  pub open_file : NoAnswer icb.open_1
  pub lock : NoAnswer icb.lock_1
  pub pread : NoAnswer icb.pread_1
  pub pwrite : NoAnswer icb.pwrite_1
  pub close : NoAnswer icb.close_1
  pub mkdir : NoAnswer icb.mkdir_1
  pub rmdir : NoAnswer icb.rmdir_1
  pub rename : NoAnswer icb.rename_1
  pub unlink : NoAnswer icb.unlink_1
  pub ftruncate : NoAnswer icb.ftruncate_1
  pub fallocate : NoAnswer icb.fallocate_1
  pub symlink : NoAnswer icb.symlink_1
  pub readlink : NoAnswer icb.readlink_1
  pub statfs : NoAnswer icb.statfs_1
  pub fsync : NoAnswer icb.fsync_1

-- What each operation returns then.
abbrev pub number_lost : Operation → ℤ
number_lost (readdir path) = pos 0
number_lost (utimens path) = pos 0
number_lost (getxattr path) = minus_enodata
number_lost (read fh buf size offset) = if size == 0 then pos 0 else minus_one
number_lost (write fh buf size offset) = if size == 0 then pos 0 else minus_one
number_lost _ = minus_one

transfer_lost :
    {S : Type 0} (worker : (at n : ℕ) → S → ℤ × S)
    → ((at n : ℕ) (s : S) → (worker at n s).0 ≡ minus_one)
    → (count : ℕ) (s : S) → (transfer worker count s).0 ≡ (if count == 0 then pos 0 else minus_one)
unfolding transfer
transfer_lost worker fails zero s = ap (λ r. r.0) (no_round worker 0 0 0 s)
transfer_lost worker fails (suc count) s =
    rw (round worker count 0 (suc count) 0 s, fails 0 (piece (suc count)) s) (ground arith)

module _ {S : Type 0} (icb : Stubs S) (lost : IsLost icb) where
  readent_lost :
      (dir : Bytes) (offset : ℕ) (s : S) → (icbinn_readent icb dir offset s).0 ≡ minus_one
  unfolding icbinn_readent icbinn_readdir readdir_code
  readent_lost dir offset s = rw (lost.readdir _ s) refl

  readdir_lost :
      {F : Type 0} (m : Mounted F) (path : Bytes) (fuel : ℕ) (s : S)
      → 0 < fuel
      → icbinnfs_readdir_loop icb m.filler m.ist path fuel 0 m.de m.entries s
        ≡ some (pos 0, m.entries, (icbinn_readent icb path 0 s).2)
  unfolding icbinnfs_readdir_loop
  readdir_lost m path zero s h = absurd (omega arith)
  readdir_lost m path (suc fuel) s h = rw (readent_lost path 0 s, icbinnfs_readdir_loop) refl

  open_lost : (name : Bytes) (mode : ℕ) (s : S) → (icbinn_open icb name mode s).0 ≡ minus_one
  unfolding icbinn_open open_code
  open_lost name mode s = ap open_code (lost.open_file _ s)

  pread_lost :
      (fd : ℤ) (count offset : ℕ) (t : Filling S)
      → (icbinn_pread icb fd count offset t).0 ≡ (if count == 0 then pos 0 else minus_one)
  unfolding icbinn_pread
  pread_lost fd count offset =
      transfer_lost (icbinn_pread_worker icb fd offset)
        (λ at n t.
          unfold icbinn_pread_worker pread_reply in
          ap (λ r. (pread_reply n r).0) (lost.pread _ t.conn))
        count

  pwrite_lost :
      (fd : ℤ) (buf : Bytes) (count offset : ℕ) (s : S)
      → (icbinn_pwrite icb fd buf count offset s).0 ≡ (if count == 0 then pos 0 else minus_one)
  unfolding icbinn_pwrite
  pwrite_lost fd buf count offset =
      transfer_lost (icbinn_pwrite_worker icb fd buf offset)
        (λ at n s. unfold icbinn_pwrite_worker pwrite_code in ap (pwrite_code n) (lost.pwrite _ s))
        count

module _ {S F : Type 0} (m : Mounted F) (icb : Stubs S) (lost : IsLost icb) where
  transferred :
      (n : ℕ) → as_int (if n == 0 then pos 0 else minus_one) ≡ (if n == 0 then pos 0 else minus_one)
  unfolding as_int
  transferred n = ground arith

  -- An operation ends, with its number, and has given FUSE no entry.
  abbrev pub EndsWith : ℤ → Option (Served S F) → Type 0
  EndsWith number out =
      (served : Served S F) × (out ≡ some served)
      × (served.number ≡ number)
      × (served.entries ≡ m.entries)

  -- If no call on the connection gets an answer, every operation of the FUSE file system comes to
  -- an end, READDIR with some fuel, and gives `filler` no entry. It returns -1, but for GETXATTR,
  -- which returns -ENODATA, UTIMENS and a READ or WRITE of no bytes, which return 0, and READDIR,
  -- which returns 0 as for an empty directory.
  pub icbinnfs_oper_lost :
      (op : Operation) (s : S) → 0 < m.fuel → EndsWith (number_lost op) (icbinnfs_oper m icb op s)
  unfolding icbinnfs_oper icbinnfs_flock icbinn_lock icbinnfs_getattr icbinn_stat stat_code
      icbinnfs_getxattr icbinnfs_create icbinnfs_open icbinnfs_read icbinnfs_write icbinnfs_truncate
      icbinnfs_ftruncate icbinn_ftruncate icbinnfs_fallocate icbinn_fallocate fallocate_code
      icbinnfs_unlink icbinn_unlink icbinnfs_mkdir icbinn_mkdir icbinnfs_rmdir icbinn_rmdir
      icbinnfs_utimens icbinnfs_rename icbinn_rename icbinnfs_readlink icbinn_readlink readlink_code
      icbinnfs_symlink icbinn_symlink icbinnfs_statfs icbinn_statfs statfs_code icbinnfs_fsync
      icbinn_fsync icbinnfs_release icbinn_close
  icbinnfs_oper_lost (flock fh op) s some_fuel = (_, refl, ap status_code (lost.lock _ s), refl)
  icbinnfs_oper_lost (getattr path) s some_fuel = (_, refl, rw (lost.stat path s) refl, refl)
  icbinnfs_oper_lost (getxattr path) s some_fuel = (_, refl, refl, refl)
  icbinnfs_oper_lost (create path) s some_fuel =
      (_, refl, rw (open_lost icb lost path _ s) refl, refl)
  icbinnfs_oper_lost (open_file path flags) s some_fuel =
      (_, refl, rw (open_lost icb lost path _ s) refl, refl)
  icbinnfs_oper_lost (read fh buf size offset) s some_fuel =
      (_, refl, ap as_int (pread_lost icb lost fh size offset _) ∙ transferred size, refl)
  icbinnfs_oper_lost (write fh buf size offset) s some_fuel =
      (_, refl, ap as_int (pwrite_lost icb lost fh buf size offset s) ∙ transferred size, refl)
  icbinnfs_oper_lost (truncate path offset) s some_fuel =
      (_, refl, rw (open_lost icb lost path _ s) refl, refl)
  icbinnfs_oper_lost (ftruncate fh offset) s some_fuel =
      (_, refl, ap status_code (lost.ftruncate _ s), refl)
  icbinnfs_oper_lost (fallocate fh mode offset len) s some_fuel =
      (_, refl, ap fallocate_code (lost.fallocate _ s), refl)
  icbinnfs_oper_lost (unlink path) s some_fuel = (_, refl, ap status_code (lost.unlink _ s), refl)
  icbinnfs_oper_lost (mkdir path) s some_fuel = (_, refl, ap status_code (lost.mkdir _ s), refl)
  icbinnfs_oper_lost (rmdir path) s some_fuel = (_, refl, ap status_code (lost.rmdir _ s), refl)
  icbinnfs_oper_lost (utimens path) s some_fuel = (_, refl, refl, refl)
  icbinnfs_oper_lost (rename old new) s some_fuel =
      (_, refl, ap status_code (lost.rename _ s), refl)
  icbinnfs_oper_lost (readlink path bufsz) s some_fuel =
      (_, refl, rw (lost.readlink _ s) refl, refl)
  icbinnfs_oper_lost (symlink oldpath newpath) s some_fuel =
      (_, refl, ap status_code (lost.symlink _ s), refl)
  icbinnfs_oper_lost (statfs path) s some_fuel = (_, refl, rw (lost.statfs path s) refl, refl)
  icbinnfs_oper_lost (fsync fh) s some_fuel = (_, refl, ap status_code (lost.fsync fh s), refl)
  icbinnfs_oper_lost (release fh) s some_fuel = (_, refl, ap status_code (lost.close fh s), refl)
  icbinnfs_oper_lost (readdir path) s some_fuel =
      rw (readdir_lost icb lost m path m.fuel s some_fuel) (_, refl, refl, refl)
