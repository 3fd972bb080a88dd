-- ===== src/Server/Simulation/Requests.antt =====
-- Every request and every session, on a machine and on a view of it.
use icbinn.Common.{◌≡◌, refl, ap, List, [], ◌∷◌}
use icbinn.Protocol.{Request, Response, attributes, opened, chunk, status, random, space}
use icbinn.Kernel.{Kernel}
use icbinn.Server.State.{Server, Run, done}
use icbinn.Server.Dispatch.{serve, session}
use icbinn.Server.Simulation.{map_run, map_run-bind, Simulates, seen, seen_out}
use icbinn.Server.Simulation.Handlers.{
  stat-Alike, open-Alike, lock-Alike, pread-Alike, pwrite-Alike, close-Alike, mkdir-Alike,
  rmdir-Alike, rename-Alike, unlink-Alike, ftruncate-Alike, rand-Alike, fallocate-Alike,
  symlink-Alike, readlink-Alike, statfs-Alike, fsync-Alike,
}
use icbinn.Server.Simulation.Listing.{readdir-Alike}

-- A reply is the result of its handler.
told :
    {V B : Type 0} (tag : B → Response) (a b : B × Server V)
    → a ≡ b
    → ◌≡◌ {A = Run (Response × Server V)} (done (tag a.0, a.1)) (done (tag b.0, b.1))
told {V} {B} tag a b e = ap (λ (r : B × Server V). done (tag r.0, r.1)) e

module _ {W V : Type 0} {view : W → V} {k : Kernel W} {k' : Kernel V}
    (like : Simulates view k k') where
  -- If each system call on one machine gives the result that it gives on a view of the machine, and
  -- leaves the view as it leaves that, then so does every request: the reply is the same, or the
  -- process ends or faults on both, and the states that are left correspond.
  pub serve-Alike :
      (req : Request) (s : Server W)
      → map_run (seen_out view) (serve k req s) ≡ serve k' req (seen view s)
  unfolding serve
  serve-Alike Request.null s = refl
  serve-Alike (Request.readdir argp) s =
      map_run-bind (seen_out view) (seen_out view) _ _ _ _ (readdir-Alike like argp s) (λ out. refl)
  serve-Alike (Request.stat path) s = told attributes _ _ (stat-Alike like path s)
  serve-Alike (Request.open_file argp) s = told opened _ _ (open-Alike like argp s)
  serve-Alike (Request.lock argp) s = told status _ _ (lock-Alike like argp s)
  serve-Alike (Request.pread argp) s = told chunk _ _ (pread-Alike like argp s)
  serve-Alike (Request.pwrite argp) s = told status _ _ (pwrite-Alike like argp s)
  serve-Alike (Request.close fd) s = told status _ _ (close-Alike like fd s)
  serve-Alike (Request.mkdir path) s = told status _ _ (mkdir-Alike like path s)
  serve-Alike (Request.rmdir path) s = told status _ _ (rmdir-Alike like path s)
  serve-Alike (Request.rename argp) s = told status _ _ (rename-Alike like argp s)
  serve-Alike (Request.unlink path) s = told status _ _ (unlink-Alike like path s)
  serve-Alike (Request.ftruncate argp) s = told status _ _ (ftruncate-Alike like argp s)
  serve-Alike (Request.rand argp) s = told random _ _ (rand-Alike like argp s)
  serve-Alike (Request.fallocate argp) s = told status _ _ (fallocate-Alike like argp s)
  serve-Alike (Request.symlink argp) s = told status _ _ (symlink-Alike like argp s)
  serve-Alike (Request.readlink argp) s = told chunk _ _ (readlink-Alike like argp s)
  serve-Alike (Request.statfs path) s = told space _ _ (statfs-Alike like path s)
  serve-Alike (Request.fsync fd) s = told status _ _ (fsync-Alike like fd s)

  -- If each system call on one machine gives the result that it gives on a view of the machine,
  -- and leaves the view as it leaves that, then so does every session: from states that correspond
  -- it comes to states that correspond, or ends the process or faults on both.
  pub session-Alike :
      (reqs : List Request) (s : Server W)
      → map_run (seen view) (session k reqs s) ≡ session k' reqs (seen view s)
  unfolding session
  session-Alike [] s = refl
  session-Alike (req ∷ reqs) s =
      map_run-bind (seen_out view) (seen view) _ _ _ _ (serve-Alike req s)
        (λ out. session-Alike reqs out.1)
