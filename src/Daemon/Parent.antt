-- ===== src/Daemon/Parent.antt =====
-- `main` of svc_main.c as a whole, in the parent.
use icbinn.Common.{ℕ, ◌≤◌, ◌<◌, ◌≡◌, ◌∙◌, ap, subst, Bool, List, [], ◌++◌, length, arith}
use icbinn.Server.Outcomes.{Returning, bind-Returning, Returning-any}
use icbinn.Kernel.Process.{Proc}
use icbinn.Daemon.{Sockets}
use icbinn.Daemon.Options.{Flag, configure, configure-fits, max_sockets, ports_of}
use icbinn.Daemon.Listen.{must, open_sockets}
use icbinn.Daemon.Listening.{AllListen, AllListen-length, open_sockets-Listen}
use icbinn.Daemon.Accept.{Child, accept_loop}
use icbinn.Daemon.Descriptors.{HoldConnections, accept_loop-Holds}
use icbinn.Daemon.Main.{server_main}

-- The parent holds the listening sockets and nothing else, 1 to 16 of them, and each child its
-- connection and nothing else.
pub record HoldsApart {W : Type 0} (os : Sockets W) (flags : List Flag)
    (out : List ℕ × (List (Child W) × Proc W)) : Type 0 where
  pub some_socket : 0 < length out.0
  pub few_sockets : length out.0 ≤ max_sockets
  pub listening : AllListen os (ports_of flags) out.0
  pub parent : out.1.1.fds ≡ out.0
  pub children : HoldConnections os out.0 out.1.0

module _ {W : Type 0} (os : Sockets W) (have_v4v : Bool) where
  -- From a process without open descriptors, after any number of rounds that `main` of the server
  -- has made: there is a listening socket for each port of the options (or for the default port),
  -- 1 to 16 of them, bound, listening and with O_NONBLOCK set; the parent has these open and
  -- nothing else; and each child has its connection open and nothing else, and the index of a
  -- listening socket.
  pub server_main-HoldsApart :
      (rounds : ℕ) (flags : List Flag) (p : Proc W)
      → p.fds ≡ []
      → Returning (HoldsApart os flags) (server_main os have_v4v rounds flags p)
  unfolding server_main
  server_main-HoldsApart rounds flags p e =
      bind-Returning _ (HoldsApart os flags) (configure have_v4v flags) _
        (configure-fits have_v4v flags)
        (λ c fits.
          bind-Returning _ (HoldsApart os flags) (must (os.ignore_children p.world)) _
            (Returning-any _)
            (λ (_, w) _.
              bind-Returning _ (HoldsApart os flags) (open_sockets os have_v4v c.port _ _) _
                (open_sockets-Listen os have_v4v c.port _ _)
                (λ (sockfds, p') h.
                  let size = AllListen-length os c.port sockfds h.0 in
                  bind-Returning _ (HoldsApart os flags) (accept_loop os rounds sockfds p') _
                    (accept_loop-Holds os rounds sockfds p' (h.1 ∙ ap (λ l. l ++ sockfds) e))
                    (λ out o. record {
                      some_socket = omega (arith, size, fits.1);
                      few_sockets = omega (arith, size, fits.2);
                      listening = subst (λ ports. AllListen os ports sockfds) fits.0 h.0;
                      parent = o.1;
                      children = o.0;
                    }))))
