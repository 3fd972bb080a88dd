-- ===== src/Wire/Link.antt =====
-- What the theorems about client and server assume of the connection between them: for a procedure
-- it runs the server's handler once on the arguments, and hands its result over.
use icbinn.Common.{◌≡◌, some}
use icbinn.Kernel.{Kernel}
use icbinn.Server.Files.{
  stat_1_svc, statfs_1_svc, open_1_svc, lock_1_svc, readlink_1_svc, pread_1_svc, ftruncate_1_svc,
  fallocate_1_svc, pwrite_1_svc, close_1_svc, fsync_1_svc, rand_1_svc,
}
use icbinn.Server.Names.{symlink_1_svc, mkdir_1_svc, rmdir_1_svc, rename_1_svc, unlink_1_svc}
use icbinn.Server.Readdir.{readdir_1_svc}
use icbinn.Client.Stubs.{Remote, Stubs}
use icbinn.Server.State.{Server, Run, done}

module _ {S W : Type 0} (server : S → Server W) where
  -- The call got through: the client has the handler's result, and the server its new state.
  pub record Delivered {A B : Type 0} (stub : Remote S A B) (handler : A → Server W → B × Server W)
      (a : A) (s : S) : Type 0 where
    pub replied : (stub a s).0 ≡ some (handler a (server s)).0
    pub advanced : server (stub a s).1 ≡ (handler a (server s)).1

  -- A connection that never fails.
  abbrev pub Carries : {A B : Type 0} → Remote S A B → (A → Server W → B × Server W) → Type 0
  Carries {A} stub handler = (a : A) (s : S) → Delivered stub handler a s

  -- A connection that never fails, for the one handler that may end the server: where the handler
  -- returns, its result arrives.
  abbrev pub CarriesRun :
      {A B : Type 0} → Remote S A B → (A → Server W → Run (B × Server W)) → Type 0
  CarriesRun {A} {B} stub handler =
      (a : A) (s : S) (res : B) (v : Server W)
      → handler a (server s) ≡ done (res, v)
      → ((stub a s).0 ≡ some res) × (server (stub a s).1 ≡ v)

  -- A connection that never fails, whatever the procedure.
  pub record CarriesAll (k : Kernel W) (icb : Stubs S) : Type 0 where
    pub null : (s : S) → ((icb.null_1 tt s).0 ≡ some tt) × (server (icb.null_1 tt s).1 ≡ server s)
    pub readdir : CarriesRun icb.readdir_1 (readdir_1_svc k)
    pub stat : Carries icb.stat_1 (stat_1_svc k)
    pub open_file : Carries icb.open_1 (open_1_svc k)
    pub lock : Carries icb.lock_1 (lock_1_svc k)
    pub pread : Carries icb.pread_1 (pread_1_svc k)
    pub pwrite : Carries icb.pwrite_1 (pwrite_1_svc k)
    pub close : Carries icb.close_1 (close_1_svc k)
    pub mkdir : Carries icb.mkdir_1 (mkdir_1_svc k)
    pub rmdir : Carries icb.rmdir_1 (rmdir_1_svc k)
    pub rename : Carries icb.rename_1 (rename_1_svc k)
    pub unlink : Carries icb.unlink_1 (unlink_1_svc k)
    pub ftruncate : Carries icb.ftruncate_1 (ftruncate_1_svc k)
    pub rand : Carries icb.rand_1 (rand_1_svc k)
    pub fallocate : Carries icb.fallocate_1 (fallocate_1_svc k)
    pub symlink : Carries icb.symlink_1 (symlink_1_svc k)
    pub readlink : Carries icb.readlink_1 (readlink_1_svc k)
    pub statfs : Carries icb.statfs_1 (statfs_1_svc k)
    pub fsync : Carries icb.fsync_1 (fsync_1_svc k)
