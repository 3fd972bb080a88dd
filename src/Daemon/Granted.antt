-- ===== src/Daemon/Granted.antt =====
-- `main` of svc_main.c on an operating system that refuses nothing.
use icbinn.Common.{
  ℕ, zero, suc, ◌≡◌, refl, ℤ, Bool, true, false, Option, none, some, List, [], ◌∷◌, ◌++◌, length,
  leb, not, ◌==◌,
}
use icbinn.Kernel.{Sys, returned, failed}
use icbinn.Kernel.Process.{Proc, Family, inet, inet_v4v}
use icbinn.Server.State.{Run, done, ◌>>=◌}
use icbinn.Server.Outcomes.{Returns, bind-Returns, Returning-done}
use icbinn.Daemon.{Sockets}
use icbinn.Daemon.Options.{Flag, configure, configure_lem, wanted, are_valid, max_sockets}
use icbinn.Daemon.Listen.{must, start_listening, svc_create_socket, open_sockets}
use icbinn.Daemon.Accept.{
  Accepted, Child, fork_child, main_round, accept_loop, svc_accept_one_connexion,
}
use icbinn.Daemon.Main.{server_main}
use icbinn.Daemon.Parent.{HoldsApart, server_main-HoldsApart}

abbrev pub Succeeds : {W A : Type 0} → (W → Sys A × W) → Type 0
Succeeds {W} {A} f = (w : W) → (a : A) × ((f w).0 ≡ returned a)

-- The calls whose failure is fatal.
pub record Grants {W : Type 0} (os : Sockets W) : Type 0 where
  pub ignores : Succeeds os.ignore_children
  pub sockets : (family : Family) → Succeeds (os.socket family)
  pub binds : (fd port : ℕ) → Succeeds (os.bind fd port)
  pub listens : (fd backlog : ℕ) → Succeeds (os.listen fd backlog)
  pub sets : (fd : ℕ) (flags : ℤ) → Succeeds (os.set_flags fd flags)
  pub forks : Succeeds os.fork

pub must-Returns : {W A : Type 0} (r : Sys A × W) (a : A) → r.0 ≡ returned a → Returns (must r)
must-Returns (returned b, w) a e = ((b, w), refl)
must-Returns (failed errno, w) a e = cc

module _ {W : Type 0} (os : Sockets W) (grants : Grants os) where
  listening-Returns : (sockfd : ℕ) (port : ℤ) (w : W) → Returns (start_listening os sockfd port w)
  unfolding start_listening
  listening-Returns sockfd port w =
      let (b, e) = grants.binds sockfd _ w in
      bind-Returns (must (os.bind sockfd _ w)) _ (must-Returns _ b e) (λ out1.
        let (l, f) = grants.listens sockfd 5 out1.1 in
        bind-Returns (must (os.listen sockfd 5 out1.1)) _ (must-Returns _ l f) (λ out2.
          let (s, g) = grants.sets sockfd _ _ in
          bind-Returns (must (os.set_flags sockfd _ _)) _ (must-Returns _ s g)
            (λ out3. (out3.1, refl))))

  -- From a socket that was made.
  opened-Returns :
      (port : ℤ) (p : Proc W) (made : Sys ℕ × W) (fd : ℕ)
      → made.0 ≡ returned fd
      → Returns {A = ℕ × Proc W} (
          must made >>= λ (out : ℕ × W). start_listening os out.0 port out.1 >>= λ (w : W).
          done (out.0, record { world = w; fds = p.fds ++ out.0 ∷ [] }))
  opened-Returns port p made fd e = bind-Returns (must made) _ (must-Returns made fd e) (λ out.
      bind-Returns (start_listening os out.0 port out.1) _ (listening-Returns out.0 port out.1)
        (λ w. (_, refl)))

  create_socket-Returns :
      (port : ℤ) (use_tcp : Bool) (p : Proc W) → Returns (svc_create_socket os true port use_tcp p)
  unfolding svc_create_socket
  create_socket-Returns port true p =
      let (fd, e) = grants.sockets inet p.world in opened-Returns port p _ fd e
  create_socket-Returns port false p =
      let (fd, e) = grants.sockets inet_v4v p.world in opened-Returns port p _ fd e

  open_sockets-Returns :
      (ports : List ℤ) (use_tcp : Bool) (p : Proc W)
      → Returns (open_sockets os true ports use_tcp p)
  unfolding open_sockets
  open_sockets-Returns [] use_tcp p = (_, refl)
  open_sockets-Returns (port ∷ ports) use_tcp p =
      bind-Returns (svc_create_socket os true port use_tcp p) _
        (create_socket-Returns port use_tcp p)
        (λ out.
          bind-Returns (open_sockets os true ports use_tcp out.1) _
            (open_sockets-Returns ports use_tcp out.1) (λ rest. (_, refl)))

  fork_child-Returns :
      (sockfds : List ℕ) (conn : Accepted) (p : Proc W) → Returns (fork_child os sockfds conn p)
  unfolding fork_child
  fork_child-Returns sockfds conn p =
      let (w, e) = grants.forks p.world in rw (e, fork_child) (_, refl)

  round-Returns :
      (sockfds : List ℕ) (next : Proc W → Run (List (Child W) × Proc W))
      → (out : Option Accepted × Proc W) → ((p : Proc W) → Returns (next p))
      → Returns (main_round os sockfds next out)
  unfolding main_round
  round-Returns sockfds next (none, p) ih = ih p
  round-Returns sockfds next (some conn, p) ih =
      bind-Returns (fork_child os sockfds conn p) _ (fork_child-Returns sockfds conn p)
        (λ out. bind-Returns (next out.1) _ (ih out.1) (λ rest. (_, refl)))

  accept_loop-Returns :
      (rounds : ℕ) (sockfds : List ℕ) (p : Proc W) → Returns (accept_loop os rounds sockfds p)
  unfolding accept_loop
  accept_loop-Returns zero sockfds p = (_, refl)
  accept_loop-Returns (suc rounds) sockfds p =
      round-Returns sockfds _ (svc_accept_one_connexion os sockfds p)
        (accept_loop-Returns rounds sockfds)

  configure-Returns :
      (flags : List Flag)
      → leb (length (wanted flags)) max_sockets ≡ true
      → are_valid flags ≡ true
      → Returns (configure true flags)
  configure-Returns flags few valid = rw (configure_lem true flags, few, valid) (_, refl)

  main-Returns :
      (rounds : ℕ) (flags : List Flag) (p : Proc W)
      → leb (length (wanted flags)) max_sockets ≡ true
      → are_valid flags ≡ true
      → Returns (server_main os true rounds flags p)
  unfolding server_main
  main-Returns rounds flags p few valid =
      bind-Returns (configure true flags) _ (configure-Returns flags few valid) (λ c.
        let (i, e) = grants.ignores p.world in
        bind-Returns (must (os.ignore_children p.world)) _ (must-Returns _ i e) (λ out.
          bind-Returns (open_sockets os true c.port (not (c.tflag == 0)) _) _
            (open_sockets-Returns c.port _ _)
            (λ opened.
              bind-Returns (accept_loop os rounds opened.0 opened.1) _
                (accept_loop-Returns rounds opened.0 opened.1) (λ o. (_, refl)))))

  -- On an operating system on which the calls succeed whose failure is fatal, with known options
  -- that name at most 16 ports, and V4V built in, `main` of the server gets through any number of
  -- rounds of its accept loop, from no open descriptors to a state in which parent and children
  -- hold their sockets apart.
  pub server_main-serves :
      (rounds : ℕ) (flags : List Flag) (p : Proc W)
      → leb (length (wanted flags)) max_sockets ≡ true
      → are_valid flags ≡ true
      → p.fds ≡ []
      → (out : List ℕ × (List (Child W) × Proc W)) × (server_main os true rounds flags p ≡ done out)
        × HoldsApart os flags out
  server_main-serves rounds flags p few valid none_open =
      let (out, e) = main-Returns rounds flags p few valid in
      (
        out,
        e,
        Returning-done (HoldsApart os flags) (server_main os true rounds flags p) out
            (server_main-HoldsApart os true rounds flags p none_open) e,
      )
