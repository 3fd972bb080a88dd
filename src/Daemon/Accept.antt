-- ===== src/Daemon/Accept.antt =====
-- svc_main.c: `svc_accept_one_connexion`, and the loop of `main` up to the child.
use icbinn.Common.{
  ℕ, zero, suc, Bool, false, ◌||◌, Option, none, some, List, [], ◌∷◌, ◌==◌, if◌then◌else◌,
}
use icbinn.Kernel.{returned, failed}
use icbinn.Server.State.{Run, done, exited, ◌>>=◌}
use icbinn.Kernel.Process.{Proc}
use icbinn.Daemon.{Sockets, close_fd, close_all}

-- A connection: its descriptor, the index of the listening socket, and the peer's address.
pub record Accepted : Type 0 where
  pub svfd : ℕ
  pub socket_index : ℕ
  pub cl_addr : ℕ

-- FD_ISSET
abbrev pub is_set : ℕ → List ℕ → Bool
is_set fd [] = false
is_set fd (x ∷ fds) = fd == x || is_set fd fds

-- The child of a connection, before it does anything but close the listening sockets.
pub record Child (W : Type 0) : Type 0 where
  pub conn : Accepted
  pub proc : Proc W

module _ {W : Type 0} (os : Sockets W) where
  -- The loop over the sockets from the index `i` on; `none` is a negative result.
  unfoldable pub accept_ready :
      (read_set sockfds : List ℕ) (i : ℕ) → Proc W → Option Accepted × Proc W
  accept_ready read_set [] i p = (none, p)
  accept_ready read_set (sockfd ∷ sockfds) i p =
      let later = accept_ready read_set sockfds (suc i) in
      let (r, w) = os.accept sockfd p.world in
      if is_set sockfd read_set
      then elim r [
        | failed errno ↦ later (record p { world = w })
        | returned (fd, addr) ↦ (
          some (record { svfd = fd; socket_index = i; cl_addr = addr }),
          record { world = w; fds = fd ∷ p.fds },
        )
      ]
      else later p

  unfoldable pub svc_accept_one_connexion : (sockfds : List ℕ) → Proc W → Option Accepted × Proc W
  unfolding accept_ready
  svc_accept_one_connexion sockfds p =
      let (r, w) = os.select sockfds p.world in
      let p' = record p { world = w } in
      elim r [
        | failed errno ↦ (none, p')
        | returned [] ↦ (none, p')
        | returned (fd ∷ fds) ↦ accept_ready (fd ∷ fds) sockfds 0 p'
      ]

  -- The rest of a round of `main`, with a connection: the parent closes it and goes on, the child
  -- closes the listening sockets.
  unfoldable pub fork_child : (sockfds : List ℕ) → Accepted → Proc W → Run (Child W × Proc W)
  fork_child sockfds conn p =
      let (r, w) = os.fork p.world in
      elim r [
        | failed errno ↦ exited
        | returned (parent, child) ↦ done (
          record { conn = conn; proc = close_all os sockfds (record p { world = child }) },
          close_fd os conn.svfd (record p { world = parent }),
        )
      ]

  -- What the parent does with the result of `svc_accept_one_connexion`, `next` being its further
  -- rounds; with the children that it starts.
  unfoldable pub main_round :
      (sockfds : List ℕ)
      → (next : Proc W → Run (List (Child W) × Proc W)) → Option Accepted × Proc W
      → Run (List (Child W) × Proc W)
  unfolding fork_child
  main_round sockfds next (none, p) = next p
  main_round sockfds next (some conn, p) = fork_child sockfds conn p >>= λ (out : Child W × Proc W).
      next out.1 >>= λ (rest : List (Child W) × Proc W). done (out.0 ∷ rest.0, rest.1)

  -- Some rounds of the loop of `main`, in the parent.
  unfoldable pub accept_loop :
      (rounds : ℕ) (sockfds : List ℕ) → Proc W → Run (List (Child W) × Proc W)
  unfolding main_round
  accept_loop zero sockfds p = done ([], p)
  accept_loop (suc rounds) sockfds p =
      main_round sockfds (accept_loop rounds sockfds) (svc_accept_one_connexion sockfds p)
