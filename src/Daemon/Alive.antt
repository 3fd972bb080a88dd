-- ===== src/Daemon/Alive.antt =====
-- When the loop over requests ends, and when it does not.
use icbinn.Common.{
  ℕ, zero, suc, ◌+◌, ◌≡◌, ◌≢◌, refl, sym, subst, ℤ, minus_one, pos, negsuc, Bool, true, false, not,
  ◌&&◌, ◌==◌, List, [], ◌∷◌, inl, inr, Bool-cases, if◌then◌else◌, arith, negate, is_number,
}
use icbinn.Protocol.{Request}
use icbinn.Kernel.{Kernel, Sys, Sys-cases, returned, failed}
use icbinn.Server.State.{Server, Run, done, exited, fault, ◌>>=◌}
use icbinn.Server.Outcomes.{Returns, bind-Returns}
use icbinn.Server.Overruns.{ChecksPaths}
use icbinn.Server.Pages.{HasMemory}
use icbinn.Server.Answers.{serve-answers}
use icbinn.Server.Dispatch.{serve}
use icbinn.Daemon.{Sockets}
use icbinn.Daemon.Input.{
  Transport, check_client_alive, getreqset, select_round, input_round, svc_input_loop, ebadf,
}

bind_done :
    {A B : Type 0} (m : Run A) (f : A → Run B) (b : B)
    → m >>= f ≡ done b
    → (a : A) × (m ≡ done a) × (f a ≡ done b)
bind_done (done a) f b e = (a, refl, e)
bind_done exited f b e = cc
bind_done fault f b e = cc

valid_fd : (svfd : ℤ) → svfd ≢ minus_one → is_number (negate svfd) 1 ≡ false
valid_fd (pos zero) h = refl
valid_fd (pos (suc n)) h = refl
valid_fd (negsuc zero) h = absurd (h refl)
valid_fd (negsuc (suc n)) h = ground arith

-- not -1
abbrev is_descriptor : ℤ → Bool
is_descriptor (negsuc zero) = false
is_descriptor _ = true

negate-descriptor : (svfd : ℤ) → is_number (negate svfd) 1 ≡ not (is_descriptor svfd)
negate-descriptor (pos zero) = refl
negate-descriptor (pos (suc n)) = refl
negate-descriptor (negsuc zero) = refl
negate-descriptor (negsuc (suc n)) = ground arith

module _ {W : Type 0} (k : Kernel W) (os : Sockets W) (rpc : Transport W) (svfd : ℤ) where
  -- The connection is open and can be written to, in every state of the machine.
  pub record IsOpen : Type 0 where
    pub valid : svfd ≢ minus_one
    pub flags : (w : W) → (n : ℕ) × ((os.get_flags svfd w).0 ≡ returned n)
    pub writable : (w : W) → (n : ℕ) × ((os.write_nothing svfd w).0 ≡ returned n)

  check-Returns : IsOpen → (s : Server W) → Returns (check_client_alive k os rpc svfd s)
  unfolding check_client_alive
  check-Returns o s =
      let (n, f) = o.flags s.world in
      let (m, r) = o.writable (os.get_flags svfd s.world).1 in
      let v = valid_fd svfd o.valid in
      let s' = record s { world = (os.write_nothing svfd (os.get_flags svfd s.world).1).1 } in
      (s', rw (v, f, r, check_client_alive) refl)

  module _ (checks : ChecksPaths k) (memory : HasMemory k) (o : IsOpen) where
    getreqset-Returns : (reqs : List Request) (s : Server W) → Returns (getreqset k os rpc reqs s)
    unfolding getreqset
    getreqset-Returns [] s = (s, refl)
    getreqset-Returns (req ∷ reqs) s =
        bind-Returns (serve k req s) _ (serve-answers k memory checks req s)
          (λ out. getreqset-Returns reqs _)

    select-Returns : (s : Server W) → Returns (select_round k os rpc svfd s)
    unfolding select_round
    select-Returns s = elim (Sys-cases (rpc.select s.world).0) [
      | inl (errno, e) ↦ rw (e, select_round) (_, refl)
      | inr (zero, e) ↦ rw (e, select_round) (check-Returns o _)
      | inr (suc ready, e) ↦ rw (e, select_round) (getreqset-Returns _ _)
    ]

    round-Returns : (s : Server W) → Returns (input_round k os rpc svfd s)
    unfolding input_round
    round-Returns s =
        bind-Returns (if rpc.in_fdset svfd s.world then done s else _) _
          (elim (Bool-cases (rpc.in_fdset svfd s.world)) [
            | inl e ↦ rw e (s, refl)
            | inr e ↦ rw e (check-Returns o s)
          ])
          select-Returns

    -- While the connection is open and can be written to, on a machine where `malloc` succeeds and
    -- `stat` refuses paths that are empty or too long, the loop over requests gets through any
    -- number of rounds: the process does not end.
    pub input_loop-Returns :
        (rounds : ℕ) (s : Server W) → Returns (svc_input_loop k os rpc rounds svfd s)
    unfolding svc_input_loop
    input_loop-Returns zero s = (s, refl)
    input_loop-Returns (suc rounds) s =
        bind-Returns (input_round k os rpc svfd s) _ (round-Returns s) (input_loop-Returns rounds)

  -- libtirpc has closed the descriptor: it is not in the set, and is not o.
  pub record IsClosed (w : W) : Type 0 where
    pub dropped : rpc.in_fdset svfd w ≡ false
    pub not_open : (os.get_flags svfd w).0 ≡ failed ebadf

  round_closed : (s : Server W) → IsClosed s.world → input_round k os rpc svfd s ≡ exited
  unfolding input_round check_client_alive
  round_closed s h = rw (h.dropped, h.not_open, input_round, check_client_alive) (ground arith)

  ends_at :
      (before after n : ℕ) (s s' : Server W)
      → n ≡ before + suc after
      → svc_input_loop k os rpc before svfd s ≡ done s'
      → IsClosed s'.world
      → svc_input_loop k os rpc n svfd s ≡ exited
  unfolding svc_input_loop
  ends_at before after zero s s' c e h = absurd (omega arith)
  ends_at zero after (suc n) s s' c e h =
      let same : s ≡ s' = cc in
      rw (round_closed s (subst (λ t. IsClosed t.world) (sym same) h)) refl
  ends_at (suc before) after (suc n) s s' c e h =
      let (s1, r, e') = bind_done (input_round k os rpc svfd s) _ s' e in
      rw r (ends_at before after n s1 s' (omega arith) e' h)

  -- If after some rounds the RPC library has dropped the descriptor and closed it, the process
  -- ends in the next round, however many rounds were to follow.
  pub input_loop-ends :
      (before after : ℕ) (s s' : Server W)
      → svc_input_loop k os rpc before svfd s ≡ done s'
      → IsClosed s'.world
      → svc_input_loop k os rpc (before + suc after) svfd s ≡ exited
  input_loop-ends before after s s' = ends_at before after (before + suc after) s s' refl

  -- The client counts as alive: there is a descriptor, `fcntl` does not fail with EBADF, and the
  -- write succeeds.
  abbrev pub counts_as_alive : (flags written : Sys ℕ) → Bool
  counts_as_alive flags (failed errno) = false
  counts_as_alive (failed errno) (returned n) = is_descriptor svfd && not (errno == ebadf)
  counts_as_alive (returned mode) (returned n) = is_descriptor svfd

  -- `check_client_alive` lets the process go on just if there is a descriptor, `fcntl` does not
  -- fail with EBADF, and the write of no bytes succeeds, and then it changes only the machine;
  -- otherwise the process ends, so also when the write fails with EAGAIN.
  pub check_client_alive_lem :
      (s : Server W)
      → let (flags, w) = os.get_flags svfd s.world in
        let (written, w') = os.write_nothing svfd w in
        check_client_alive k os rpc svfd s
        ≡ (if counts_as_alive flags written then done (record s { world = w' }) else exited)
  unfolding check_client_alive
  check_client_alive_lem s =
      let (flags, w) = os.get_flags svfd s.world in
      let (written, w') = os.write_nothing svfd w in
      elim (Sys-cases written) [
        | inl (errno, e) ↦ rw (e, check_client_alive) (ground arith)
        | inr (n, e) ↦ elim (Sys-cases flags) [
          | inl (errno, f) ↦ rw (f, e, check_client_alive, negate-descriptor svfd) (ground arith)
          | inr (mode, f) ↦ rw (f, e, check_client_alive, negate-descriptor svfd) (ground arith)
        ]
      ]
