-- ===== src/Daemon/Input.antt =====
-- svc_main.c: `check_client_alive` and `svc_input_loop`.
use icbinn.Common.{
  ℕ, zero, suc, ℤ, negate, is_negative, is_number, Bool, List, [], ◌∷◌, ◌==◌, if◌then◌else◌, false,
}
use icbinn.Protocol.{Request, Response}
use icbinn.Kernel.{Kernel, Sys, returned, failed}
use icbinn.Server.State.{Server, Run, done, exited, ◌>>=◌}
use icbinn.Server.Dispatch.{serve}
use icbinn.Daemon.{Sockets}
use icbinn.Daemon.Listen.{int_result}

abbrev pub ebadf : ℕ
ebadf = 9

abbrev pub eagain : ℕ
eagain = 11

-- The RPC library's side of the loop: FD_ISSET of a descriptor in `svc_fdset`; `select` on that
-- set with the timeout, whose result is the number of descriptors that are ready; the requests
-- that `svc_getreqset` then reads; and the reply that it sends after each.
pub record Transport (W : Type 0) : Type 0 where
  pub in_fdset : ℤ → W → Bool
  pub select : W → Sys ℕ × W
  pub receive : W → List Request × W
  pub reply : Response → W → W

module _ {W : Type 0} (k : Kernel W) (os : Sockets W) (rpc : Transport W) where
  unfoldable pub check_client_alive : (svfd : ℤ) → Server W → Run (Server W)
  check_client_alive svfd s =
      let (flags, w1) = os.get_flags svfd s.world in
      let (r, w2) = os.write_nothing svfd w1 in
      let err = int_result r in
      let s' = record s { world = w2 } in
      let gone = elim flags as (λ _. Bool) [ failed errno ↦ errno == ebadf | returned _ ↦ false ] in
      if is_number (negate svfd) 1
      then exited
      else if gone
      then exited
      else if is_negative err
      then (if is_number (negate err) eagain then done s' else exited)
      else done s'

  -- `svc_getreqset`: every request goes to the program.
  unfoldable pub getreqset : List Request → Server W → Run (Server W)
  getreqset [] s = done s
  getreqset (req ∷ reqs) s = serve k req s >>= λ (out : Response × Server W).
      getreqset reqs (record out.1 { world = rpc.reply out.0 out.1.world })

  -- The body of the loop, from `select` on.
  unfoldable pub select_round : (svfd : ℤ) → Server W → Run (Server W)
  unfolding getreqset
  select_round svfd s =
      let (r, w) = rpc.select s.world in
      let s' = record s { world = w } in
      let (reqs, w') = rpc.receive w in
      elim r [
        | failed errno ↦ done s'
        | returned zero ↦ check_client_alive svfd s'
        | returned (suc ready) ↦ getreqset reqs (record s { world = w' })
      ]

  unfoldable pub input_round : (svfd : ℤ) → Server W → Run (Server W)
  unfolding select_round
  input_round svfd s =
      (if rpc.in_fdset svfd s.world then done s else check_client_alive svfd s)
      >>= select_round svfd

  -- The state after some rounds. The loop itself has no end.
  unfoldable pub svc_input_loop : (rounds : ℕ) (svfd : ℤ) → Server W → Run (Server W)
  unfolding input_round
  svc_input_loop zero svfd s = done s
  svc_input_loop (suc rounds) svfd s = input_round svfd s >>= svc_input_loop rounds svfd
