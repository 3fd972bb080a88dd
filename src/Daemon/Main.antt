-- ===== src/Daemon/Main.antt =====
-- svc_main.c: `main`, in the parent.
use icbinn.Common.{ℕ, Bool, List, not, ◌==◌}
use icbinn.Server.State.{Run, done, ◌>>=◌}
use icbinn.Kernel.Process.{Proc}
use icbinn.Daemon.{Sockets}
use icbinn.Daemon.Options.{Flag, configure}
use icbinn.Daemon.Listen.{must, open_sockets}
use icbinn.Daemon.Accept.{Child, accept_loop}

module _ {W : Type 0} (os : Sockets W) (have_v4v : Bool) where
  -- After some rounds: `sockfds`, the children that were started, and the parent.
  unfoldable pub server_main :
      (rounds : ℕ) → List Flag → Proc W → Run (List ℕ × (List (Child W) × Proc W))
  server_main rounds flags p = do
    c ← configure have_v4v flags
    (_, w) ← must (os.ignore_children p.world)
    (sockfds, p') ← open_sockets os have_v4v c.port (not (c.tflag == 0)) (record p { world = w })
    out ← accept_loop os rounds sockfds p'
    done (sockfds, out)
