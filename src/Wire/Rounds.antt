-- ===== src/Wire/Rounds.antt =====
-- A connection through the server's own loop: a client's call is a request on the wires, one round
-- of `svc_input_loop`, and the reply on the wires.
pub mod Every
use icbinn.Common.{
  ℕ, suc, ◌≡◌, refl, ap, ◌∙◌, ℤ, Bytes, true, Option, none, some, [], ◌∷◌, length, ltb, Bool-cases,
  inl, inr,
}
use icbinn.Protocol.{Request, Response, Result, ErrnoStat, chunk, status, max_data}
use icbinn.Kernel.{Kernel, Sys, returned}
use icbinn.Server.State.{Server, Run, done, exited, fault}
use icbinn.Server.Files.{pread_1_svc, pwrite_1_svc}
use icbinn.Server.Dispatch.{serve}
use icbinn.Client.Stubs.{Remote}
use icbinn.Daemon.{Sockets}
use icbinn.Daemon.Input.{Transport, getreqset, select_round, input_round}
use icbinn.Wire.Link.{Carries}

module _ {W : Type 0} (k : Kernel W) (os : Sockets W) (tr : Transport W) (svfd : ℤ) where
  -- What the RPC library and the network do with a request and its reply. `clean` forgets what is
  -- on the wires.
  pub record Wires : Type 0 where
    pub ask : Request → W → W
    pub answer : W → Option Response
    pub clean : W → W
    pub listens : (req : Request) (w : W) → tr.in_fdset svfd (ask req w) ≡ true
    pub ready : (req : Request) (w : W) → (n : ℕ) × ((tr.select (ask req w)).0 ≡ returned (suc n))
    pub arrives : (req : Request) (w : W) → (tr.receive (tr.select (ask req w)).1).0 ≡ req ∷ []
    pub taken : (req : Request) (w : W) → clean (tr.receive (tr.select (ask req w)).1).1 ≡ clean w
    pub replied : (res : Response) (w : W) → answer (tr.reply res w) ≡ some res
    pub sent : (res : Response) (w : W) → clean (tr.reply res w) ≡ clean w

  module _ (wires : Wires) where
    -- the server, without the wires
    abbrev pub cleaned : Server W → Server W
    cleaned s = record s { world = wires.clean s.world }

    abbrev pub took :
        {B : Type 0} → (Response → Option B) → Server W → Run (Server W) → Option B × Server W
    took unwrap s (done s') =
        (elim (wires.answer s'.world) [ none ↦ none | some res ↦ unwrap res ], s')
    took unwrap s exited = (none, s)
    took unwrap s fault = (none, s)

    -- A stub that asks, and lets the server go through one round.
    abbrev pub through_round :
        {A B : Type 0} → (A → Request) → (Response → Option B) → Remote (Server W) A B
    through_round wrap unwrap a s =
        took unwrap s (input_round k os tr svfd (record s { world = wires.ask (wrap a) s.world }))

    -- The server when it has read a request.
    abbrev pub on_arrival : Request → Server W → Server W
    on_arrival req s = record s { world = (tr.receive (tr.select (wires.ask req s.world)).1).1 }

    pub round_lem :
        (req : Request) (res : Response) (s s' : Server W)
        → serve k req (on_arrival req s) ≡ done (res, s')
        → input_round k os tr svfd (record s { world = wires.ask req s.world })
          ≡ done (record s' { world = tr.reply res s'.world })
    unfolding input_round select_round getreqset
    round_lem req res s s' e =
        let (n, ready) = wires.ready req s.world in
        rw
          (
            wires.listens req s.world,
            ready,
            wires.arrives req s.world,
            e,
            input_round,
            select_round,
            getreqset,
          )
          refl

    -- A handler, the request and the reply it stands behind, and that it does not look at the wires.
    record Handles {A B : Type 0} (wrap : A → Request) (tag : B → Response)
        (unwrap : Response → Option B) (h : A → Server W → B × Server W) : Type 0 where
      serves : (a : A) (v : Server W) → serve k (wrap a) v ≡ done (tag (h a v).0, (h a v).1)
      opens : (b : B) → unwrap (tag b) ≡ some b
      replies : (a : A) (v : Server W) → (h a v).0 ≡ (h a (cleaned v)).0
      commutes : (a : A) (v : Server W) → cleaned (h a v).1 ≡ (h a (cleaned v)).1

    round-Carries :
        {A B : Type 0} (wrap : A → Request) (tag : B → Response) (unwrap : Response → Option B)
        (h : A → Server W → B × Server W)
        → Handles wrap tag unwrap h
        → Carries cleaned (through_round wrap unwrap) h
    round-Carries wrap tag unwrap h ok a s =
        let v = on_arrival (wrap a) s in
        let res = tag (h a v).0 in
        let w = (h a v).1.world in
        let same : cleaned v ≡ cleaned s =
          ap (λ u. record s { world = u }) (wires.taken (wrap a) s.world) in
        let went = round_lem (wrap a) res s (h a v).1 (ok.serves a v) in
        record {
          replied =
              ap (λ m. (took unwrap s m).0) went
              ∙ rw (wires.replied res w) (ok.opens (h a v).0)
              ∙ ap some (ok.replies a v ∙ ap (λ u. (h a u).0) same);
          advanced =
              ap (λ m. cleaned (took unwrap s m).1) went
              ∙ ap (λ u. record (h a v).1 { world = u }) (wires.sent res w)
              ∙ ok.commutes a v
              ∙ ap (λ u. (h a u).1) same;
        }

    -- A call of the kernel that neither sees the wires nor touches them.
    abbrev Unseen : {A : Type 0} → (W → Sys A × W) → Type 0
    Unseen f =
        (w : W) → ((f w).0 ≡ (f (wires.clean w)).0) × (wires.clean (f w).1 ≡ (f (wires.clean w)).1)

    pub record Apart : Type 0 where
      pub pread : (fd : ℤ) (count offset : ℕ) → Unseen (k.pread fd count offset)
      pub pwrite : (fd : ℤ) (bytes : Bytes) (offset : ℕ) → Unseen (k.pwrite fd bytes offset)

    abbrev pub as_chunk : Response → Option (Result Bytes)
    as_chunk (chunk res) = some res
    as_chunk _ = none

    abbrev pub as_status : Response → Option ErrnoStat
    as_status (status res) = some res
    as_status _ = none

    pread-Handles : Apart → Handles Request.pread chunk as_chunk (pread_1_svc k)
    unfolding serve pread_1_svc
    pread-Handles apart = record {
      serves = λ a v. refl;
      opens = λ b. refl;
      replies = λ a v.
          let (seen, _) = apart.pread a.fd a.count a.offset v.world in
          elim (Bool-cases (ltb max_data a.count)) [
            | inl e ↦ rw e refl
            | inr e ↦ rw (e, seen) refl
          ];
      commutes = λ a v.
          let (_, left) = apart.pread a.fd a.count a.offset v.world in
          elim (Bool-cases (ltb max_data a.count)) [
            | inl e ↦ rw e refl
            | inr e ↦ rw e (ap (λ w. record v { world = w }) left)
          ];
    }

    pwrite-Handles : Apart → Handles Request.pwrite status as_status (pwrite_1_svc k)
    unfolding serve pwrite_1_svc
    pwrite-Handles apart = record {
      serves = λ a v. refl;
      opens = λ b. refl;
      replies = λ a v.
          let (seen, _) = apart.pwrite a.fd a.bytes a.offset v.world in
          elim (Bool-cases (ltb max_data (length a.bytes))) [
            | inl e ↦ rw e refl
            | inr e ↦ rw (e, seen) refl
          ];
      commutes = λ a v.
          let (_, left) = apart.pwrite a.fd a.bytes a.offset v.world in
          elim (Bool-cases (ltb max_data (length a.bytes))) [
            | inl e ↦ rw e refl
            | inr e ↦ rw e (ap (λ w. record v { world = w }) left)
          ];
    }

    -- If the wires hand each request over alone and keep its reply, and `pread` and `pwrite`
    -- neither see the wires nor touch them, then a connection whose calls are a request, one round
    -- of `svc_input_loop` and the reply carries PREAD and PWRITE to the server's handlers, the
    -- wires apart: what the theorems about client and server assume of a connection holds of the
    -- server's own loop.
    pub rounds-Carry :
        Apart
        → Carries cleaned (through_round Request.pread as_chunk) (pread_1_svc k)
          × Carries cleaned (through_round Request.pwrite as_status) (pwrite_1_svc k)
    rounds-Carry apart = (
      round-Carries Request.pread chunk as_chunk (pread_1_svc k) (pread-Handles apart),
      round-Carries Request.pwrite status as_status (pwrite_1_svc k) (pwrite-Handles apart),
    )
