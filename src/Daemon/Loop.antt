-- ===== src/Daemon/Loop.antt =====
-- The loop over requests: what it keeps, when it ends and when it does not.
use icbinn.Common.{
  ℕ, zero, suc, ◌≡◌, refl, ℤ, List, [], ◌∷◌, inl, inr, if_both, if◌then◌else◌, arith,
}
use icbinn.Protocol.{Request, Response}
use icbinn.Kernel.{Kernel, Sys-cases}
use icbinn.Server.State.{Server, done}
use icbinn.Server.Outcomes.{NoFault, bind-NoFault, Returning, bind-Returning, Returning-mono}
use icbinn.Server.Overruns.{ChecksPaths, serve-NoFault}
use icbinn.Server.Blocks.{OwnsBlocks, serve-Owned}
use icbinn.Server.Dispatch.{serve}
use icbinn.Daemon.{Sockets}
use icbinn.Daemon.Input.{
  Transport, check_client_alive, getreqset, select_round, input_round, svc_input_loop,
}

module _ {W : Type 0} (k : Kernel W) (os : Sockets W) (rpc : Transport W) (svfd : ℤ) where
  -- The test of the client changes the machine only.
  abbrev Tested : Server W → Server W → Type 0
  Tested s s' =
      (s'.allocated ≡ s.allocated)
      × (s'.freed ≡ s.freed)
      × (s'.listed ≡ s.listed)
      × (s'.fresh ≡ s.fresh)

  check-Tested : (s : Server W) → Returning (Tested s) (check_client_alive k os rpc svfd s)
  unfolding check_client_alive
  check-Tested s = ground arith

  check-NoFault : (s : Server W) → NoFault (check_client_alive k os rpc svfd s)
  unfolding check_client_alive
  check-NoFault s = ground arith

  -- What holds of the blocks holds in any machine.
  Owns-world : (s s' : Server W) → Tested s s' → OwnsBlocks s → OwnsBlocks s'
  Owns-world s s' (allocated, freed, listed, fresh) h = record {
    owned = rw (allocated, freed, listed) h.owned;
    untouched = rw (fresh, listed) h.untouched;
  }

  getreqset-Owned :
      (reqs : List Request) (s : Server W)
      → OwnsBlocks s
      → Returning OwnsBlocks (getreqset k os rpc reqs s)
  unfolding getreqset
  getreqset-Owned [] s h = h
  getreqset-Owned (req ∷ reqs) s h =
      bind-Returning (λ (out : Response × Server W). OwnsBlocks out.1) OwnsBlocks (serve k req s) _
        (serve-Owned k req s h)
        (λ out p. getreqset-Owned reqs _ (Owns-world out.1 _ (refl, refl, refl, refl) p))

  check-Owned :
      (s : Server W) → OwnsBlocks s → Returning OwnsBlocks (check_client_alive k os rpc svfd s)
  check-Owned s h =
      Returning-mono (Tested s) OwnsBlocks (check_client_alive k os rpc svfd s) (check-Tested s)
        (λ s' t. Owns-world s s' t h)

  -- the rest of a round, from `select` on
  selected-Owned :
      (s : Server W) → OwnsBlocks s → Returning OwnsBlocks (select_round k os rpc svfd s)
  unfolding select_round
  selected-Owned s h =
      let s' = record s { world = (rpc.select s.world).1 } in
      let h' = Owns-world s s' (refl, refl, refl, refl) h in
      elim (Sys-cases (rpc.select s.world).0) [
        | inl (errno, e) ↦ rw (e, select_round) h'
        | inr (zero, e) ↦ rw (e, select_round) (check-Owned s' h')
        | inr (suc ready, e) ↦
            rw (e, select_round) (getreqset-Owned _ _ (Owns-world s' _ (refl, refl, refl, refl) h'))
      ]

  round-Owned : (s : Server W) → OwnsBlocks s → Returning OwnsBlocks (input_round k os rpc svfd s)
  unfolding input_round
  round-Owned s h =
      bind-Returning OwnsBlocks OwnsBlocks (if rpc.in_fdset svfd s.world then done s else _) _
        (if_both (Returning OwnsBlocks) (rpc.in_fdset svfd s.world) h (check-Owned s h))
        selected-Owned

  loop-Owned :
      (rounds : ℕ) (s : Server W)
      → OwnsBlocks s
      → Returning OwnsBlocks (svc_input_loop k os rpc rounds svfd s)
  unfolding svc_input_loop
  loop-Owned zero s h = h
  loop-Owned (suc rounds) s h =
      bind-Returning OwnsBlocks OwnsBlocks (input_round k os rpc svfd s) _ (round-Owned s h)
        (loop-Owned rounds)

  module _ (checks : ChecksPaths k) where
    getreqset-NoFault : (reqs : List Request) (s : Server W) → NoFault (getreqset k os rpc reqs s)
    unfolding getreqset
    getreqset-NoFault [] s = tt
    getreqset-NoFault (req ∷ reqs) s =
        bind-NoFault (serve k req s) _ (serve-NoFault k checks req s)
          (λ out e. getreqset-NoFault reqs _)

    selected-NoFault : (s : Server W) → NoFault (select_round k os rpc svfd s)
    unfolding select_round
    selected-NoFault s = elim (Sys-cases (rpc.select s.world).0) [
      | inl (errno, e) ↦ rw (e, select_round) tt
      | inr (zero, e) ↦ rw (e, select_round) (check-NoFault _)
      | inr (suc ready, e) ↦ rw (e, select_round) (getreqset-NoFault _ _)
    ]

    round-NoFault : (s : Server W) → NoFault (input_round k os rpc svfd s)
    unfolding input_round
    round-NoFault s =
        bind-NoFault (if rpc.in_fdset svfd s.world then done s else _) _
          (if_both NoFault (rpc.in_fdset svfd s.world) tt (check-NoFault s))
          (λ s' e. selected-NoFault s')

    pub loop-NoFault : (rounds : ℕ) (s : Server W) → NoFault (svc_input_loop k os rpc rounds svfd s)
    unfolding svc_input_loop
    loop-NoFault zero s = tt
    loop-NoFault (suc rounds) s =
        bind-NoFault (input_round k os rpc svfd s) _ (round-NoFault s)
          (λ s' e. loop-NoFault rounds s')

    pub input_loop-IsSafe :
        (rounds : ℕ) (s : Server W)
        → OwnsBlocks s
        → NoFault (svc_input_loop k os rpc rounds svfd s)
          × Returning OwnsBlocks (svc_input_loop k os rpc rounds svfd s)
    input_loop-IsSafe rounds s h = (loop-NoFault rounds s, loop-Owned rounds s h)
