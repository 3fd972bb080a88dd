-- ===== src/Daemon/Listen.antt =====
-- svc_main.c: `svc_create_socket`, and the loop of `main` that opens the sockets.
use Prim.Native.Nat.{bit_or}
use icbinn.Common.{
  ℕ, ℤ, pos, minus_one, port_number, Bool, true, false, Option, none, some, List, [], ◌∷◌, ◌++◌,
  if◌then◌else◌,
}
use icbinn.Kernel.{Sys, returned, failed}
use icbinn.Server.State.{Run, done, exited, ◌>>=◌}
use icbinn.Kernel.Process.{Proc, Family, inet, inet_v4v}
use icbinn.Daemon.{Sockets}

abbrev pub int_result : Sys ℕ → ℤ
int_result (returned n) = pos n
int_result (failed errno) = minus_one

-- O_NONBLOCK
abbrev pub o_nonblock : ℕ
o_nonblock = 0o4000

-- `arg |= O_NONBLOCK;`, which leaves -1 as it is
abbrev pub with_nonblock : Sys ℕ → ℤ
with_nonblock (returned flags) = pos (bit_or flags o_nonblock)
with_nonblock (failed errno) = minus_one

-- A call that must not fail.
abbrev pub must : {W A : Type 0} → Sys A × W → Run (A × W)
must (returned a, w) = done (a, w)
must (failed errno, w) = exited

-- The family of the socket; `none` is `fatal ("no v4v support")`.
abbrev pub family_of : (have_v4v use_tcp : Bool) → Option Family
family_of have_v4v true = some inet
family_of true false = some inet_v4v
family_of false false = none

module _ {W : Type 0} (os : Sockets W) where
  -- From `bind` on.
  unfoldable pub start_listening : ℕ → (port : ℤ) → W → Run W
  start_listening sockfd port w = do
    (_, w1) ← must (os.bind sockfd (port_number port) w)
    (_, w2) ← must (os.listen sockfd 5 w1)
    let (flags, w3) = os.get_flags (pos sockfd) w2
    (_, w4) ← must (os.set_flags sockfd (with_nonblock flags) w3)
    done w4

module _ {W : Type 0} (os : Sockets W) (have_v4v : Bool) where
  unfoldable pub svc_create_socket : (port : ℤ) → (use_tcp : Bool) → Proc W → Run (ℕ × Proc W)
  unfolding start_listening
  svc_create_socket port use_tcp p = elim (family_of have_v4v use_tcp) [
    | none ↦ exited
    | some family ↦ do
      let (r, w) = os.socket family p.world
      (sockfd, w') ← must (r, if use_tcp then os.reuse_addr (int_result r) w else w)
      w'' ← start_listening os sockfd port w'
      done (sockfd, record { world = w''; fds = p.fds ++ sockfd ∷ [] })
  ]

  -- The loop over the ports; the result is `sockfds`.
  unfoldable pub open_sockets : (port : List ℤ) → (use_tcp : Bool) → Proc W → Run (List ℕ × Proc W)
  unfolding svc_create_socket
  open_sockets [] use_tcp p = done ([], p)
  open_sockets (port ∷ ports) use_tcp p = do
    (sockfd, p') ← svc_create_socket port use_tcp p
    (sockfds, p'') ← open_sockets ports use_tcp p'
    done (sockfd ∷ sockfds, p'')
