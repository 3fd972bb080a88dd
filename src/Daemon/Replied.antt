-- ===== src/Daemon/Replied.antt =====
-- svc_main.c and the RPC library: what the rounds of the loop over requests do with each request.
use icbinn.Common.{
  ℕ, zero, suc, ◌≡◌, refl, ℤ, List, [], ◌∷◌, Bool-cases, inl, inr, if◌then◌else◌, arith,
}
use icbinn.Protocol.{Request, Response}
use icbinn.Kernel.{Kernel, Sys, Sys-cases, returned, failed}
use icbinn.Server.State.{Server, Run, done, exited, fault}
use icbinn.Server.Outcomes.{Returning, bind-Returning, Returning-mono}
use icbinn.Server.Dispatch.{serve}
use icbinn.Daemon.{Sockets}
use icbinn.Daemon.Input.{
  Transport, check_client_alive, getreqset, select_round, input_round, svc_input_loop,
}

itself : {A : Type 0} (m : Run A) → Returning (λ a. m ≡ done a) m
itself (done a) = refl
itself exited = tt
itself fault = tt

module _ {W : Type 0} (k : Kernel W) (os : Sockets W) (rpc : Transport W) (svfd : ℤ) where
  -- Each request has gone to its handler, and the handler's result has been sent before the next.
  abbrev pub AnswersAll : List Request → Server W → Server W → Type 0
  AnswersAll [] s s' = s' ≡ s
  AnswersAll (req ∷ reqs) s s' =
      (res : Response) × (s1 : Server W) × (serve k req s ≡ done (res, s1))
      × AnswersAll reqs (record s1 { world = rpc.reply res s1.world }) s'

  -- Nothing but the machine has changed.
  abbrev pub KeepsServer : Server W → Server W → Type 0
  KeepsServer s s' = s' ≡ record s { world = s'.world }

  -- What a round makes of the result of `select`: where descriptors are ready, the requests that
  -- have come are all answered.
  abbrev pub Selects : Sys ℕ → W → Server W → Server W → Type 0
  Selects (failed errno) w s s' = s' ≡ record s { world = w }
  Selects (returned zero) w s s' = KeepsServer s s'
  Selects (returned (suc ready)) w s s' =
      let (reqs, w') = rpc.receive w in AnswersAll reqs (record s { world = w' }) s'

  -- A round of the loop, and some rounds.
  abbrev pub AnswersRound : Server W → Server W → Type 0
  AnswersRound s s' =
      (w : W) × (let (r, w') = rpc.select w in Selects r w' (record s { world = w }) s')

  abbrev pub AnswersRounds : ℕ → Server W → Server W → Type 0
  AnswersRounds zero s s' = s' ≡ s
  AnswersRounds (suc rounds) s s' = (t : Server W) × AnswersRound s t × AnswersRounds rounds t s'

  getreqset-AnswersAll :
      (reqs : List Request) (s : Server W)
      → Returning (AnswersAll reqs s) (getreqset k os rpc reqs s)
  unfolding getreqset
  getreqset-AnswersAll [] s = refl
  getreqset-AnswersAll (req ∷ reqs) s =
      bind-Returning (λ (out : Response × Server W). serve k req s ≡ done out)
        (AnswersAll (req ∷ reqs) s) (serve k req s) _ (itself (serve k req s))
        (λ out e.
          Returning-mono (AnswersAll reqs _) (AnswersAll (req ∷ reqs) s)
            (getreqset k os rpc reqs (record out.1 { world = rpc.reply out.0 out.1.world }))
            (getreqset-AnswersAll reqs _) (λ s' a. (out.0, out.1, e, a)))

  check-KeepsServer :
      (s : Server W) → Returning (KeepsServer s) (check_client_alive k os rpc svfd s)
  unfolding check_client_alive
  check-KeepsServer s = ground arith

  select-Selects :
      (s : Server W)
      → let (r, w) = rpc.select s.world in Returning (Selects r w s) (select_round k os rpc svfd s)
  unfolding select_round
  select-Selects s = elim (Sys-cases (rpc.select s.world).0) [
    | inl (errno, e) ↦ rw (e, select_round) refl
    | inr (zero, e) ↦ rw (e, select_round) (check-KeepsServer _)
    | inr (suc ready, e) ↦ rw (e, select_round) (getreqset-AnswersAll _ _)
  ]

  round-AnswersRound : (s : Server W) → Returning (AnswersRound s) (input_round k os rpc svfd s)
  unfolding input_round
  round-AnswersRound s =
      bind-Returning (KeepsServer s) (AnswersRound s)
        (if rpc.in_fdset svfd s.world then done s else _) _
        (elim (Bool-cases (rpc.in_fdset svfd s.world)) [
          | inl e ↦ rw e refl
          | inr e ↦ rw e (check-KeepsServer s)
        ])
        (λ t kept.
          Returning-mono _ (AnswersRound s) (select_round k os rpc svfd t) (select-Selects t)
            (λ s' a. (t.world, rw⁻¹ kept a)))

  pub input_loop-AnswersRounds :
      (rounds : ℕ) (s : Server W)
      → Returning (AnswersRounds rounds s) (svc_input_loop k os rpc rounds svfd s)
  unfolding svc_input_loop
  input_loop-AnswersRounds zero s = refl
  input_loop-AnswersRounds (suc rounds) s =
      bind-Returning (AnswersRound s) (AnswersRounds (suc rounds) s) (input_round k os rpc svfd s) _
        (round-AnswersRound s)
        (λ t a.
          Returning-mono (AnswersRounds rounds t) (AnswersRounds (suc rounds) s)
            (svc_input_loop k os rpc rounds svfd t) (input_loop-AnswersRounds rounds t)
            (λ s' b. (t, a, b)))
