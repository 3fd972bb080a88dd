-- ===== src/Server/Dispatch.antt =====
-- The program of libicbinn/rpc/icbinn_prot.x: every procedure with the handler that serves it, as
-- the generated `icbinn_prot_program_1` calls them.
use icbinn.Common.{List, [], ◌∷◌}
use icbinn.Protocol.{
  Request, Response, void, listing, attributes, opened, chunk, status, random, space,
}
use icbinn.Kernel.{Kernel}
use icbinn.Server.State.{Server, Run, done, ◌>>=◌}
use icbinn.Server.Files.{
  stat_1_svc, statfs_1_svc, open_1_svc, lock_1_svc, readlink_1_svc, pread_1_svc, ftruncate_1_svc,
  fallocate_1_svc, pwrite_1_svc, close_1_svc, fsync_1_svc, rand_1_svc,
}
use icbinn.Server.Names.{symlink_1_svc, mkdir_1_svc, rmdir_1_svc, rename_1_svc, unlink_1_svc}
use icbinn.Server.Readdir.{readdir_1_svc}

abbrev answer : {W A : Type 0} → (A → Response) → A × Server W → Run (Response × Server W)
answer wrap (a, s) = done (wrap a, s)

module _ {W : Type 0} (k : Kernel W) where
  unfoldable pub serve : Request → Server W → Run (Response × Server W)
  serve Request.null s = done (void, s)
  serve (Request.readdir argp) s = do (res, s') ← readdir_1_svc k argp s; done (listing res, s')
  serve (Request.stat path) s = answer attributes (stat_1_svc k path s)
  serve (Request.open_file argp) s = answer opened (open_1_svc k argp s)
  serve (Request.lock argp) s = answer status (lock_1_svc k argp s)
  serve (Request.pread argp) s = answer chunk (pread_1_svc k argp s)
  serve (Request.pwrite argp) s = answer status (pwrite_1_svc k argp s)
  serve (Request.close fd) s = answer status (close_1_svc k fd s)
  serve (Request.mkdir path) s = answer status (mkdir_1_svc k path s)
  serve (Request.rmdir path) s = answer status (rmdir_1_svc k path s)
  serve (Request.rename argp) s = answer status (rename_1_svc k argp s)
  serve (Request.unlink path) s = answer status (unlink_1_svc k path s)
  serve (Request.ftruncate argp) s = answer status (ftruncate_1_svc k argp s)
  serve (Request.rand argp) s = answer random (rand_1_svc k argp s)
  serve (Request.fallocate argp) s = answer status (fallocate_1_svc k argp s)
  serve (Request.symlink argp) s = answer status (symlink_1_svc k argp s)
  serve (Request.readlink argp) s = answer chunk (readlink_1_svc k argp s)
  serve (Request.statfs path) s = answer space (statfs_1_svc k path s)
  serve (Request.fsync fd) s = answer status (fsync_1_svc k fd s)

  -- A client's requests, one after the other, as `svc_getreqset` hands them to the program.
  unfoldable pub session : List Request → Server W → Run (Server W)
  session [] s = done s
  session (req ∷ reqs) s =
      let rest = session reqs in serve req s >>= λ (out : Response × Server W). rest out.1
