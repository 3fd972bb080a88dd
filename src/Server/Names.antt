-- ===== src/Server/Names.antt =====
-- libicbinn/server/server.c: the handlers that change the tree of names.
use icbinn.Common.{ℕ, Bytes}
use icbinn.Protocol.{ErrnoStat, RenameArgs, SymlinkArgs}
use icbinn.Kernel.{Kernel}
use icbinn.Server.State.{Server, call, with_path}

-- S_IRWXU
abbrev pub owner_only : ℕ
owner_only = 0o700

module _ {W : Type 0} (k : Kernel W) where
  unfoldable pub symlink_1_svc : SymlinkArgs → Server W → ErrnoStat × Server W
  symlink_1_svc argp =
      with_path argp.oldpath
        (with_path argp.newpath (call (λ _. tt) (k.symlink argp.oldpath argp.newpath)))

  unfoldable pub mkdir_1_svc : Bytes → Server W → ErrnoStat × Server W
  mkdir_1_svc path = with_path path (call (λ _. tt) (k.mkdir path owner_only))

  unfoldable pub rmdir_1_svc : Bytes → Server W → ErrnoStat × Server W
  rmdir_1_svc path = with_path path (call (λ _. tt) (k.rmdir path))

  unfoldable pub rename_1_svc : RenameArgs → Server W → ErrnoStat × Server W
  rename_1_svc argp =
      with_path argp.from (with_path argp.to (call (λ _. tt) (k.rename argp.from argp.to)))

  unfoldable pub unlink_1_svc : Bytes → Server W → ErrnoStat × Server W
  unlink_1_svc path = with_path path (call (λ _. tt) (k.unlink path))
