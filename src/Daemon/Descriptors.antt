-- ===== src/Daemon/Descriptors.antt =====
-- Which descriptors the parent and its children keep.
use icbinn.Common.{
  ℕ, zero, suc, ◌+◌, ◌<◌, ◌≡◌, refl, ap, ◌∙◌, subst, Bool-cases, true, Option, none, some, List, [],
  ◌∷◌, length, get_elem?, inl, inr, arith,
}
use icbinn.Kernel.{Sys, Sys-cases, returned, failed}
use icbinn.Server.State.{Run}
use icbinn.Server.Outcomes.{Returning, bind-Returning}
use icbinn.Kernel.Process.{Proc, remove_fd, remove_fd-head, remove_fd-next}
use icbinn.Daemon.{Sockets, close_fd, close_all}
use icbinn.Daemon.Accept.{
  Accepted, Child, is_set, accept_ready, svc_accept_one_connexion, fork_child, main_round,
  accept_loop,
}

get_elem?-lt : (xs : List ℕ) (i x : ℕ) → get_elem? xs i ≡ some x → i < length xs
get_elem?-lt [] i x e = cc
get_elem?-lt (y ∷ xs) zero x e = omega arith
get_elem?-lt (y ∷ xs) (suc i) x e = omega (arith, get_elem?-lt xs i x e)

module _ {W : Type 0} (os : Sockets W) where
  -- The child that closes the listening sockets is left with its connection.
  close_all-fds :
      (sockfds : List ℕ) (svfd : ℕ) (p : Proc W)
      → p.fds ≡ svfd ∷ sockfds
      → (close_all os sockfds p).fds ≡ svfd ∷ []
  unfolding close_all close_fd
  close_all-fds [] svfd p e = e
  close_all-fds (fd ∷ sockfds) svfd p e =
      close_all-fds sockfds svfd (close_fd os fd p)
        (ap (remove_fd fd) e ∙ remove_fd-next svfd fd sockfds)

  -- A connection that a listening socket has given: one that was ready, at the index.
  pub record IsFrom (read_set sockfds : List ℕ) (i : ℕ) (conn : Accepted) : Type 0 where
    pub place : ℕ
    pub listener : ℕ
    pub before : W
    pub index : conn.socket_index ≡ i + place
    pub stands : get_elem? sockfds place ≡ some listener
    pub ready : is_set listener read_set ≡ true
    pub accepted : (os.accept listener before).0 ≡ returned (conn.svfd, conn.cl_addr)

  -- What the search for a connection comes to: nothing, and the descriptors as they were; or a
  -- connection, and its descriptor.
  abbrev pub Found :
      (read_set sockfds : List ℕ) (i : ℕ) (fds : List ℕ) → Option Accepted × Proc W → Type 0
  Found read_set sockfds i fds (none, p) = p.fds ≡ fds
  Found read_set sockfds i fds (some conn, p) =
      (p.fds ≡ conn.svfd ∷ fds) × IsFrom read_set sockfds i conn

  Found-later :
      (read_set : List ℕ) (sockfd : ℕ) (sockfds : List ℕ) (i : ℕ) (fds : List ℕ)
      (out : Option Accepted × Proc W)
      → Found read_set sockfds (suc i) fds out
      → Found read_set (sockfd ∷ sockfds) i fds out
  Found-later read_set sockfd sockfds i fds (none, p) h = h
  Found-later read_set sockfd sockfds i fds (some conn, p) (e, f) = (
    e,
    record {
      place = suc f.place;
      listener = f.listener;
      before = f.before;
      index = omega (arith, f.index);
      stands = f.stands;
      ready = f.ready;
      accepted = f.accepted;
    },
  )

  accept_ready-Found :
      (read_set sockfds : List ℕ) (i : ℕ) (p : Proc W)
      → Found read_set sockfds i p.fds (accept_ready os read_set sockfds i p)
  unfolding accept_ready
  accept_ready-Found read_set [] i p = refl
  accept_ready-Found read_set (sockfd ∷ sockfds) i p =
      let w = (os.accept sockfd p.world).1 in
      elim (Bool-cases (is_set sockfd read_set)) [
        | inr no_set ↦ rw no_set (
            Found-later read_set sockfd sockfds i p.fds _
              (accept_ready-Found read_set sockfds (suc i) p))
        | inl set ↦ elim (Sys-cases (os.accept sockfd p.world).0) [
          | inl (errno, e) ↦
              rw (set, e)
                (Found-later read_set sockfd sockfds i p.fds _
                  (accept_ready-Found read_set sockfds (suc i) (record p { world = w })))
          | inr ((fd, addr), e) ↦
              rw (set, e)
                (
                  refl,
                  record {
                    place = 0;
                    listener = sockfd;
                    before = p.world;
                    index = omega arith;
                    stands = refl;
                    ready = set;
                    accepted = e;
                  },
                )
        ]
      ]

  -- the descriptors that `select` has reported
  abbrev pub reported : Sys (List ℕ) → List ℕ
  reported (returned fds) = fds
  reported (failed errno) = []

  pub accept_one-Found :
      (sockfds : List ℕ) (p : Proc W)
      → Found
          (reported (os.select sockfds p.world).0)
          sockfds
          0
          p.fds
          (svc_accept_one_connexion os sockfds p)
  unfolding svc_accept_one_connexion
  accept_one-Found sockfds p = elim (Sys-cases (os.select sockfds p.world).0) [
    | inl (errno, e) ↦ rw (e, svc_accept_one_connexion) refl
    | inr ([], e) ↦ rw (e, svc_accept_one_connexion) refl
    | inr (fd ∷ fds, e) ↦
        rw (e, svc_accept_one_connexion) (accept_ready-Found (fd ∷ fds) sockfds 0 _)
  ]

  -- A child has its connection and no other descriptor, and the index of a listening socket.
  pub record HoldsConnection (sockfds : List ℕ) (c : Child W) : Type 0 where
    pub only : c.proc.fds ≡ c.conn.svfd ∷ []
    pub index : c.conn.socket_index < length sockfds

  abbrev pub HoldConnections : (sockfds : List ℕ) → List (Child W) → Type 0
  HoldConnections sockfds [] = Unit
  HoldConnections sockfds (c ∷ cs) = HoldsConnection sockfds c × HoldConnections sockfds cs

  fork_child-Holds :
      (sockfds : List ℕ) (conn : Accepted) (p : Proc W)
      → p.fds ≡ conn.svfd ∷ sockfds
      → conn.socket_index < length sockfds
      → Returning
          (λ (out : Child W × Proc W). HoldsConnection sockfds out.0 × (out.1.fds ≡ sockfds))
          (fork_child os sockfds conn p)
  unfolding fork_child close_fd
  fork_child-Holds sockfds conn p e i = elim (Sys-cases (os.fork p.world).0) [
    | inl (errno, f) ↦ rw (f, fork_child) tt
    | inr ((parent, child), f) ↦
        rw (f, fork_child)
          (
            record {
              only = close_all-fds sockfds conn.svfd (record p { world = child }) e;
              index = i;
            },
            ap (remove_fd conn.svfd) e ∙ remove_fd-head conn.svfd sockfds,
          )
  ]

  abbrev AllHold : (sockfds : List ℕ) → List (Child W) × Proc W → Type 0
  AllHold sockfds out = HoldConnections sockfds out.0 × (out.1.fds ≡ sockfds)

  -- One round, with what the search has come to.
  round-Holds :
      (read_set sockfds : List ℕ) (next : Proc W → Run (List (Child W) × Proc W))
      → (out : Option Accepted × Proc W) → Found read_set sockfds 0 sockfds out
      → ((p : Proc W) → p.fds ≡ sockfds → Returning (AllHold sockfds) (next p))
      → Returning (AllHold sockfds) (main_round os sockfds next out)
  unfolding main_round
  round-Holds read_set sockfds next (none, p) e ih = ih p e
  round-Holds read_set sockfds next (some conn, p) (e, from) ih =
      let i = get_elem?-lt sockfds from.place from.listener from.stands in
      let closed = fork_child-Holds sockfds conn p e (omega (arith, i, from.index)) in
      bind-Returning _ (AllHold sockfds) (fork_child os sockfds conn p) _ closed (λ out h.
        bind-Returning (AllHold sockfds) (AllHold sockfds) (next out.1) _ (ih out.1 h.1)
          (λ rest hs. ((h.0, hs.0), hs.1)))

  pub accept_loop-Holds :
      (rounds : ℕ) (sockfds : List ℕ) (p : Proc W)
      → p.fds ≡ sockfds
      → Returning
          (λ (out : List (Child W) × Proc W). HoldConnections sockfds out.0 × (out.1.fds ≡ sockfds))
          (accept_loop os rounds sockfds p)
  unfolding accept_loop
  accept_loop-Holds zero sockfds p e = (tt, e)
  accept_loop-Holds (suc rounds) sockfds p e =
      let out = svc_accept_one_connexion os sockfds p in
      let ready = reported (os.select sockfds p.world).0 in
      let found = subst (λ fds. Found ready sockfds 0 fds out) e (accept_one-Found sockfds p) in
      round-Holds ready sockfds _ out found (accept_loop-Holds rounds sockfds)
