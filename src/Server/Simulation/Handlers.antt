-- ===== src/Server/Simulation/Handlers.antt =====
-- Every handler but READDIR, on a machine and on a view of it.
use icbinn.Common.{
  zero, suc, ◌≡◌, refl, sym, ◌∙◌, ℤ, pos, negsuc, Bytes, Bool-cases, Option-cases, length, ltb, inl,
  inr,
}
use icbinn.Protocol.{
  OpenArgs, FtruncateArgs, FallocateArgs, ReadlinkArgs, PreadArgs, PwriteArgs, RenameArgs,
  SymlinkArgs, LockArgs, RandArgs, max_data, error,
}
use icbinn.Kernel.{Kernel, einval}
use icbinn.Server.State.{Server, call}
use icbinn.Server.Files.{
  stat_1_svc, statfs_1_svc, open_1_svc, open_flags, lock_1_svc, lock_type, readlink_1_svc,
  pread_1_svc, ftruncate_1_svc, fallocate_1_svc, pwrite_1_svc, close_1_svc, fsync_1_svc, rand_1_svc,
  random_source,
}
use icbinn.Server.Names.{
  symlink_1_svc, mkdir_1_svc, rmdir_1_svc, rename_1_svc, unlink_1_svc, owner_only,
}
use icbinn.Server.Simulation.{
  Simulates, Handled, seen, call-Handled, choice-Handled, with_path-Handled, path_call-Handled,
}

module _ {W V : Type 0} {view : W → V} {k : Kernel W} {k' : Kernel V}
    (like : Simulates view k k') where
  pub lock-Alike : (argp : LockArgs) → Handled view (lock_1_svc k argp) (lock_1_svc k' argp)
  unfolding lock_1_svc
  lock-Alike argp s = elim (Option-cases (lock_type argp.type)) [
    | inl e ↦ rw (e, lock_1_svc) refl
    | inr (l_type, e) ↦
        rw (e, lock_1_svc)
          (call-Handled view _ (k.set_lock argp.fd l_type) (k'.set_lock argp.fd l_type)
            (like.set_lock argp.fd l_type) s)
  ]

  source-Alike : (src : ℤ) (s : Server W) → random_source src s ≡ random_source src (seen view s)
  source-Alike (pos zero) s = refl
  source-Alike (pos (suc zero)) s = refl
  source-Alike (pos (suc (suc n))) s = refl
  source-Alike (negsuc n) s = refl

  pub rand-Alike : (argp : RandArgs) → Handled view (rand_1_svc k argp) (rand_1_svc k' argp)
  unfolding rand_1_svc
  rand-Alike argp s = elim (Bool-cases (ltb max_data argp.count)) [
    | inl e ↦ rw (e, rand_1_svc) refl
    | inr e ↦ elim (Option-cases (random_source argp.src s)) [
      | inl f ↦ rw (e, f, sym (source-Alike argp.src s) ∙ f, rand_1_svc) refl
      | inr (fd, f) ↦
          let (got, left) = like.read fd argp.count s.world in
          rw (e, f, sym (source-Alike argp.src s) ∙ f, rand_1_svc) (rw (← got, ← left) refl)
    ]
  ]

  pub statfs-Alike : (path : Bytes) → Handled view (statfs_1_svc k path) (statfs_1_svc k' path)
  unfolding statfs_1_svc
  statfs-Alike path =
      path_call-Handled view path _ (k.statvfs path) (k'.statvfs path) (like.statvfs path)

  pub open-Alike : (argp : OpenArgs) → Handled view (open_1_svc k argp) (open_1_svc k' argp)
  unfolding open_1_svc
  open-Alike argp =
      path_call-Handled view argp.name _ (k.open_file argp.name (open_flags argp.mode) 0o600)
        (k'.open_file argp.name (open_flags argp.mode) 0o600)
        (like.open_file argp.name (open_flags argp.mode) 0o600)

  pub stat-Alike : (path : Bytes) → Handled view (stat_1_svc k path) (stat_1_svc k' path)
  unfolding stat_1_svc
  stat-Alike path = path_call-Handled view path _ (k.lstat path) (k'.lstat path) (like.lstat path)

  pub ftruncate-Alike :
      (argp : FtruncateArgs) → Handled view (ftruncate_1_svc k argp) (ftruncate_1_svc k' argp)
  unfolding ftruncate_1_svc
  ftruncate-Alike argp =
      call-Handled view _ (k.ftruncate argp.fd argp.length) (k'.ftruncate argp.fd argp.length)
        (like.ftruncate argp.fd argp.length)

  pub fallocate-Alike :
      (argp : FallocateArgs) → Handled view (fallocate_1_svc k argp) (fallocate_1_svc k' argp)
  unfolding fallocate_1_svc
  fallocate-Alike argp =
      call-Handled view _ (k.fallocate argp.fd argp.mode argp.offset argp.length)
        (k'.fallocate argp.fd argp.mode argp.offset argp.length)
        (like.fallocate argp.fd argp.mode argp.offset argp.length)

  pub close-Alike : (fd : ℤ) → Handled view (close_1_svc k fd) (close_1_svc k' fd)
  unfolding close_1_svc
  close-Alike fd = call-Handled view _ (k.close fd) (k'.close fd) (like.close fd)

  pub fsync-Alike : (fd : ℤ) → Handled view (fsync_1_svc k fd) (fsync_1_svc k' fd)
  unfolding fsync_1_svc
  fsync-Alike fd = call-Handled view _ (k.fsync fd) (k'.fsync fd) (like.fsync fd)

  pub mkdir-Alike : (path : Bytes) → Handled view (mkdir_1_svc k path) (mkdir_1_svc k' path)
  unfolding mkdir_1_svc
  mkdir-Alike path =
      path_call-Handled view path _ (k.mkdir path owner_only) (k'.mkdir path owner_only)
        (like.mkdir path owner_only)

  pub rmdir-Alike : (path : Bytes) → Handled view (rmdir_1_svc k path) (rmdir_1_svc k' path)
  unfolding rmdir_1_svc
  rmdir-Alike path = path_call-Handled view path _ (k.rmdir path) (k'.rmdir path) (like.rmdir path)

  pub unlink-Alike : (path : Bytes) → Handled view (unlink_1_svc k path) (unlink_1_svc k' path)
  unfolding unlink_1_svc
  unlink-Alike path =
      path_call-Handled view path _ (k.unlink path) (k'.unlink path) (like.unlink path)

  pub readlink-Alike :
      (argp : ReadlinkArgs) → Handled view (readlink_1_svc k argp) (readlink_1_svc k' argp)
  unfolding readlink_1_svc
  readlink-Alike argp =
      let sys = k.readlink argp.path argp.bufsz in
      let sys' = k'.readlink argp.path argp.bufsz in
      with_path-Handled view argp.path _ _ (
        choice-Handled view (ltb max_data argp.bufsz) (λ s. (error (pos einval), s))
          (call (λ bytes. bytes) sys) (λ s. (error (pos einval), s)) (call (λ bytes. bytes) sys')
          (λ s. refl) (call-Handled view _ sys sys' (like.readlink argp.path argp.bufsz)))

  pub pread-Alike : (argp : PreadArgs) → Handled view (pread_1_svc k argp) (pread_1_svc k' argp)
  unfolding pread_1_svc
  pread-Alike argp =
      let sys = k.pread argp.fd argp.count argp.offset in
      let sys' = k'.pread argp.fd argp.count argp.offset in
      choice-Handled view (ltb max_data argp.count) (λ s. (error (pos einval), s))
        (call (λ bytes. bytes) sys) (λ s. (error (pos einval), s)) (call (λ bytes. bytes) sys')
        (λ s. refl) (call-Handled view _ sys sys' (like.pread argp.fd argp.count argp.offset))

  pub pwrite-Alike : (argp : PwriteArgs) → Handled view (pwrite_1_svc k argp) (pwrite_1_svc k' argp)
  unfolding pwrite_1_svc
  pwrite-Alike argp =
      let sys = k.pwrite argp.fd argp.bytes argp.offset in
      let sys' = k'.pwrite argp.fd argp.bytes argp.offset in
      choice-Handled view (ltb max_data (length argp.bytes)) (λ s. (error (pos einval), s))
        (call (λ _. tt) sys) (λ s. (error (pos einval), s)) (call (λ _. tt) sys') (λ s. refl)
        (call-Handled view _ sys sys' (like.pwrite argp.fd argp.bytes argp.offset))

  pub rename-Alike : (argp : RenameArgs) → Handled view (rename_1_svc k argp) (rename_1_svc k' argp)
  unfolding rename_1_svc
  rename-Alike argp =
      let sys = k.rename argp.from argp.to in
      let sys' = k'.rename argp.from argp.to in
      with_path-Handled view argp.from _ _
        (path_call-Handled view argp.to _ sys sys' (like.rename argp.from argp.to))

  pub symlink-Alike :
      (argp : SymlinkArgs) → Handled view (symlink_1_svc k argp) (symlink_1_svc k' argp)
  unfolding symlink_1_svc
  symlink-Alike argp =
      let sys = k.symlink argp.oldpath argp.newpath in
      let sys' = k'.symlink argp.oldpath argp.newpath in
      with_path-Handled view argp.oldpath _ _
        (path_call-Handled view argp.newpath _ sys sys' (like.symlink argp.oldpath argp.newpath))
