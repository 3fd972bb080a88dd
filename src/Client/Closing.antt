-- ===== src/Client/Closing.antt =====
-- Which descriptors are left when a connection has been opened and closed again.
use icbinn.Common.{
  ℕ, ◌≡◌, refl, sym, ap, ◌∙◌, subst, ℤ, Bytes, Option-cases, true, Option, none, some, List, ◌∷◌,
  inl, inr,
}
use icbinn.Kernel.{Sys, Sys-cases, returned, failed}
use icbinn.Kernel.Process.{Proc, inet, inet_v4v, remove_fd, remove_fd-head}
use icbinn.Server.State.{done}
use icbinn.Server.Outcomes.{Returning, bind-Returning, Returning-any, Returning-mono}
use icbinn.Client.Connection.{
  Net, SockAddr, Icbinn, xmalloc, icbinn_clnt_create_by_fd, resolve, connect_to, connect_host,
  open_tcp_socket, open_v4v_socket, close_unmade, create_of, icbinn_clnt_create_tcp,
  icbinn_clnt_create_v4v, icbinn_clnt_destroy,
}

module _ {W : Type 0} (net : Net W) where
  -- An attempt with the socket `sockfd`, which is open afterwards whatever came of it.
  abbrev IsOf : (sockfd : ℕ) (fds : List ℕ) → Option (ℕ × SockAddr) × Proc W → Type 0
  IsOf sockfd fds (none, p) = p.fds ≡ sockfd ∷ fds
  IsOf sockfd fds (some (fd, sin), p) = (fd ≡ sockfd) × (p.fds ≡ sockfd ∷ fds)

  connect_to-IsOf :
      (sockfd : ℕ) (sin : SockAddr) (fds : List ℕ) (p : Proc W)
      → p.fds ≡ sockfd ∷ fds
      → IsOf sockfd fds (connect_to net sockfd sin p)
  unfolding connect_to
  connect_to-IsOf sockfd sin fds p e =
      elim (Sys-cases (net.connect sockfd sin.sin_addr sin.sin_port p.world).0) [
        | inl (errno, r) ↦ rw (r, connect_to) e
        | inr (_, r) ↦ rw (r, connect_to) (refl, e)
      ]

  connect_host-IsOf :
      (host : Bytes) (port : ℤ) (sockfd : ℕ) (fds : List ℕ) (p : Proc W)
      → p.fds ≡ sockfd ∷ fds
      → IsOf sockfd fds (connect_host net host port sockfd p)
  unfolding connect_host
  connect_host-IsOf host port sockfd fds p e = elim (Option-cases (resolve net host p.world).0) [
    | inl r ↦ rw (r, connect_host) e
    | inr (addr, r) ↦ rw (r, connect_host) (connect_to-IsOf sockfd _ fds _ e)
  ]

  -- What `socket` has given, and the attempt with it; or nothing has changed.
  abbrev Opens : List ℕ → Sys ℕ → Option (ℕ × SockAddr) × Proc W → Type 0
  Opens fds (returned sockfd) out = IsOf sockfd fds out
  Opens fds (failed errno) out = (out.0 ≡ none) × (out.1.fds ≡ fds)

  tcp-Opens :
      (host : Bytes) (port : ℤ) (p : Proc W)
      → Opens p.fds (net.socket inet p.world).0 (open_tcp_socket net (some host) port p)
  unfolding open_tcp_socket
  tcp-Opens host port p = elim (Sys-cases (net.socket inet p.world).0) [
    | inl (errno, r) ↦ rw (r, open_tcp_socket) (refl, refl)
    | inr (sockfd, r) ↦ rw (r, open_tcp_socket) (connect_host-IsOf host port sockfd p.fds _ refl)
  ]

  v4v-Opens :
      (domid port : ℤ) (p : Proc W)
      → Opens p.fds (net.socket inet_v4v p.world).0 (open_v4v_socket net true domid port p)
  unfolding open_v4v_socket
  v4v-Opens domid port p = elim (Sys-cases (net.socket inet_v4v p.world).0) [
    | inl (errno, r) ↦ rw (r, open_v4v_socket) (refl, refl)
    | inr (sockfd, r) ↦ rw (r, open_v4v_socket) (connect_to-IsOf sockfd _ p.fds _ refl)
  ]

  -- A client that is made and destroyed leaves the descriptors `fds`. If none is made of a socket
  -- that was connected, they are left at once; and otherwise, those of the attempt `opened`.
  abbrev pub Balances : List ℕ → Option (ℕ × SockAddr) × Proc W → Option Icbinn × Proc W → Type 0
  Balances fds opened (some icb, p) = (icbinn_clnt_destroy net (some icb) p).fds ≡ fds
  Balances fds (some _, q) (none, p) = p.fds ≡ fds
  Balances fds (none, q) (none, p) = p.fds ≡ q.fds

  -- A client of the socket, or none.
  abbrev IsMade : (sockfd : ℕ) (fds : List ℕ) → Option Icbinn × Proc W → Type 0
  IsMade sockfd fds (none, p) = p.fds ≡ fds
  IsMade sockfd fds (some icb, p) = (icb.sockfd ≡ sockfd) × (p.fds ≡ fds)

  create_by_fd-IsMade :
      (sockfd : ℕ) (sin : SockAddr) (p : Proc W)
      → Returning (IsMade sockfd p.fds) (icbinn_clnt_create_by_fd net sockfd sin p)
  unfolding icbinn_clnt_create_by_fd
  create_by_fd-IsMade sockfd sin p =
      let made = net.clnt_vc_create sockfd sin.sin_addr sin.sin_port p.world in
      elim (Option-cases made.0) [
        | inl e ↦ rw (e, icbinn_clnt_create_by_fd) refl
        | inr (c, e) ↦
            rw (e, icbinn_clnt_create_by_fd)
              (bind-Returning (λ (w : W). Unit {0}) (IsMade sockfd p.fds) (xmalloc net made.1) _
                (Returning-any (xmalloc net made.1)) (λ w _. (refl, refl)))
      ]

  close_unmade-Balances :
      (fds : List ℕ) (sockfd : ℕ) (sin : SockAddr) (q : Proc W) (out : Option Icbinn × Proc W)
      → IsMade sockfd (sockfd ∷ fds) out
      → Balances fds (some (sockfd, sin), q) (close_unmade net sockfd out)
  unfolding close_unmade icbinn_clnt_destroy
  close_unmade-Balances fds sockfd sin q (none, p) h =
      ap (remove_fd sockfd) h ∙ remove_fd-head sockfd fds
  close_unmade-Balances fds sockfd sin q (some icb, p) (e, h) =
      rw (e, h) (remove_fd-head sockfd fds)

  create_of-Balances :
      (fds : List ℕ) (r : Sys ℕ) (opened : Option (ℕ × SockAddr) × Proc W)
      → Opens fds r opened
      → Returning (Balances fds opened) (create_of net opened)
  unfolding create_of
  create_of-Balances fds r (none, q) h = refl
  create_of-Balances fds (failed errno) (some _, q) h = cc
  create_of-Balances fds (returned fd) (some (sockfd, sin), q) (same, h) =
      bind-Returning (IsMade sockfd q.fds) (Balances fds (some (sockfd, sin), q))
        (icbinn_clnt_create_by_fd net sockfd sin q) _ (create_by_fd-IsMade sockfd sin q)
        (λ out made.
          close_unmade-Balances fds sockfd sin q out
            (subst (λ l. IsMade sockfd l out) (h ∙ ap (λ n. n ∷ fds) (sym same)) made))

  -- If `icbinn_clnt_create_tcp` with a host makes a client, destroying it leaves the descriptors
  -- that were open before. If it makes none of a socket that was connected, these are left at
  -- once; and if no socket was connected, those that the attempt has left.
  pub create_tcp-Balances :
      (host : Bytes) (port : ℤ) (p : Proc W)
      → Returning
          (Balances p.fds (open_tcp_socket net (some host) port p))
          (icbinn_clnt_create_tcp net (some host) port p)
  unfolding icbinn_clnt_create_tcp
  create_tcp-Balances host port p =
      create_of-Balances p.fds _ (open_tcp_socket net (some host) port p) (tcp-Opens host port p)

  pub create_v4v-Balances :
      (domid port : ℤ) (p : Proc W)
      → Returning
          (Balances p.fds (open_v4v_socket net true domid port p))
          (icbinn_clnt_create_v4v net true domid port p)
  unfolding icbinn_clnt_create_v4v
  create_v4v-Balances domid port p =
      create_of-Balances p.fds _ (open_v4v_socket net true domid port p) (v4v-Opens domid port p)

  -- A client whose destruction leaves `fds`, or none.
  abbrev pub Connected : List ℕ → Option Icbinn × Proc W → Type 0
  Connected fds (none, p) = Unit
  Connected fds (some icb, p) = (icbinn_clnt_destroy net (some icb) p).fds ≡ fds

  Balances-Connected :
      (fds : List ℕ) (opened : Option (ℕ × SockAddr) × Proc W) (out : Option Icbinn × Proc W)
      → Balances fds opened out
      → Connected fds out
  Balances-Connected fds opened (none, p) h = tt
  Balances-Connected fds (none, q) (some icb, p) h = h
  Balances-Connected fds (some _, q) (some icb, p) h = h

  pub create_v4v-Connected :
      (domid port : ℤ) (p : Proc W)
      → Returning (Connected p.fds) (icbinn_clnt_create_v4v net true domid port p)
  create_v4v-Connected domid port p =
      let opened = open_v4v_socket net true domid port p in
      Returning-mono (Balances p.fds opened) (Connected p.fds)
        (icbinn_clnt_create_v4v net true domid port p) (create_v4v-Balances domid port p)
        (Balances-Connected p.fds opened)

  pub create_tcp-Connected :
      (host : Option Bytes) (port : ℤ) (p : Proc W)
      → Returning (Connected p.fds) (icbinn_clnt_create_tcp net host port p)
  unfolding icbinn_clnt_create_tcp open_tcp_socket create_of
  create_tcp-Connected none port p = tt
  create_tcp-Connected (some host) port p =
      let opened = open_tcp_socket net (some host) port p in
      Returning-mono (Balances p.fds opened) (Connected p.fds)
        (icbinn_clnt_create_tcp net (some host) port p) (create_tcp-Balances host port p)
        (Balances-Connected p.fds opened)

  -- If `icbinn_clnt_create_tcp` has got a socket but the host has no address or `connect` fails,
  -- it makes no client and leaves the socket open.
  pub create_tcp_leak :
      (host : Bytes) (port : ℤ) (p : Proc W) (sockfd : ℕ)
      → (net.socket inet p.world).0 ≡ returned sockfd
      → (open_tcp_socket net (some host) port p).0 ≡ none
      → (q : Proc W) × (icbinn_clnt_create_tcp net (some host) port p ≡ done (none, q))
        × (q.fds ≡ sockfd ∷ p.fds)
  unfolding icbinn_clnt_create_tcp create_of
  create_tcp_leak host port p sockfd r e =
      let opened = open_tcp_socket net (some host) port p in
      let left = subst (λ x. Opens p.fds x opened) r (tcp-Opens host port p) in leaks opened left e
    where
      leaks :
          (opened : Option (ℕ × SockAddr) × Proc W)
          → IsOf sockfd p.fds opened
          → opened.0 ≡ none
          → (q : Proc W) × (create_of net opened ≡ done (none, q)) × (q.fds ≡ sockfd ∷ p.fds)
      leaks (none, q) h e = (q, refl, h)
      leaks (some x, q) h e = cc
