-- ===== src/Daemon/Listening.antt =====
-- What `svc_create_socket` makes of a port.
use icbinn.Common.{
  ℕ, suc, ◌≡◌, refl, sym, ap, ◌∙◌, ℤ, pos, port_number, Bool, Option-cases, List, [], ◌∷◌, ◌++◌,
  append_assoc, append-nil, length, inl, inr,
}
use icbinn.Kernel.{Sys, returned, failed}
use icbinn.Server.State.{done, ◌>>=◌}
use icbinn.Server.Outcomes.{Returning, bind-Returning, Returning-any}
use icbinn.Kernel.Process.{Proc}
use icbinn.Daemon.{Sockets}
use icbinn.Daemon.Listen.{
  must, family_of, with_nonblock, start_listening, svc_create_socket, open_sockets,
}

pub must-Returning :
    {W A : Type 0} (r : Sys A × W)
    → Returning (λ (out : A × W). r ≡ (returned out.0, out.1)) (must r)
must-Returning (returned a, w) = refl
must-Returning (failed errno, w) = tt

module _ {W : Type 0} (os : Sockets W) where
  -- The calls that have succeeded for a socket.
  pub record Listens (port : ℤ) (sockfd : ℕ) : Type 0 where
    pub w1 : W
    pub w2 : W
    pub w3 : W
    pub bound : (os.bind sockfd (port_number port) w1).0 ≡ returned tt
    pub listening : (os.listen sockfd 5 w2).0 ≡ returned tt
    pub nonblocking :
        (os.set_flags sockfd
          (with_nonblock (os.get_flags (pos sockfd) w3).0)
          (os.get_flags (pos sockfd) w3).1).0
        ≡ returned tt

  start_listening-Listens :
      (sockfd : ℕ) (port : ℤ) (w : W)
      → Returning (λ (w' : W). Listens port sockfd) (start_listening os sockfd port w)
  unfolding start_listening
  start_listening-Listens sockfd port w =
      bind-Returning _ _ (must (os.bind sockfd (port_number port) w)) _ (must-Returning _)
        (λ (_, w1) b.
          bind-Returning _ _ (must (os.listen sockfd 5 w1)) _ (must-Returning _) (λ (_, w2) l.
            bind-Returning _ _ (must (os.set_flags sockfd _ _)) _ (must-Returning _) (λ (_, w4) f.
              record {
                w1 = w;
                w2 = w1;
                w3 = w2;
                bound = ap (λ r. r.0) b;
                listening = ap (λ r. r.0) l;
                nonblocking = ap (λ r. r.0) f;
              })))

  abbrev pub AllListen : List ℤ → List ℕ → Type 0
  AllListen [] [] = Unit
  AllListen (port ∷ ports) (sockfd ∷ sockfds) = Listens port sockfd × AllListen ports sockfds
  AllListen _ _ = ⊥

  pub AllListen-length :
      (ports : List ℤ) (sockfds : List ℕ) → AllListen ports sockfds → length sockfds ≡ length ports
  AllListen-length [] [] h = refl
  AllListen-length [] (_ ∷ _) h = absurd h
  AllListen-length (_ ∷ _) [] h = absurd h
  AllListen-length (_ ∷ ports) (_ ∷ sockfds) (_, h) = ap suc (AllListen-length ports sockfds h)

module _ {W : Type 0} (os : Sockets W) (have_v4v : Bool) where
  -- What `svc_create_socket` keeps to.
  abbrev Kept : (port : ℤ) → Proc W → ℕ × Proc W → Type 0
  Kept port p out = Listens os port out.0 × (out.1.fds ≡ p.fds ++ out.0 ∷ [])

  listening-Kept :
      (port : ℤ) (p : Proc W) (sockfd : ℕ) (w : W)
      → Returning (Kept port p) (
          start_listening os sockfd port w >>= λ (w' : W).
          done (sockfd, record { world = w'; fds = p.fds ++ sockfd ∷ [] }))
  listening-Kept port p sockfd w =
      bind-Returning (λ _. Listens os port sockfd) (Kept port p) (start_listening os sockfd port w)
        _ (start_listening-Listens os sockfd port w) (λ w' h. (h, refl))

  create_socket-Listens :
      (port : ℤ) (use_tcp : Bool) (p : Proc W)
      → Returning
          (λ (out : ℕ × Proc W). Listens os port out.0 × (out.1.fds ≡ p.fds ++ out.0 ∷ []))
          (svc_create_socket os have_v4v port use_tcp p)
  unfolding svc_create_socket
  create_socket-Listens port use_tcp p = elim (Option-cases (family_of have_v4v use_tcp)) [
    | inl e ↦ rw (e, svc_create_socket) tt
    | inr (family, e) ↦
        rw (e, svc_create_socket)
          (bind-Returning (λ (out : ℕ × W). Unit {0}) (Kept port p) (must _) _
            (Returning-any (must _)) (λ out _. listening-Kept port p out.0 out.1))
  ]

  pub open_sockets-Listen :
      (ports : List ℤ) (use_tcp : Bool) (p : Proc W)
      → Returning
          (λ (out : List ℕ × Proc W). AllListen os ports out.0 × (out.1.fds ≡ p.fds ++ out.0))
          (open_sockets os have_v4v ports use_tcp p)
  unfolding open_sockets
  open_sockets-Listen [] use_tcp p = (tt, sym (append-nil p.fds))
  open_sockets-Listen (port ∷ ports) use_tcp p =
      bind-Returning _ _ (svc_create_socket os have_v4v port use_tcp p) _
        (create_socket-Listens port use_tcp p)
        (λ (sockfd, p') h.
          bind-Returning _ _ (open_sockets os have_v4v ports use_tcp p') _
            (open_sockets-Listen ports use_tcp p')
            (λ (sockfds, p'') h'. (
              (h.0, h'.0),
              h'.1 ∙ ap (λ l. l ++ sockfds) h.1 ∙ append_assoc p.fds (sockfd ∷ []) sockfds,
            )))
