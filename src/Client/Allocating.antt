-- ===== src/Client/Allocating.antt =====
-- Attempts to make a client where memory does not run out.
use icbinn.Common.{ℕ, ◌≡◌, refl, ℤ, Bytes, Bool, true, Option, Option-cases, none, some, inl, inr}
use icbinn.Kernel.Process.{Proc}
use icbinn.Server.State.{done}
use icbinn.Server.Outcomes.{Returns, bind-Returns, Returning-done}
use icbinn.Client.Connection.{
  Net, SockAddr, Icbinn, xmalloc, icbinn_clnt_create_by_fd, open_tcp_socket, open_v4v_socket,
  create_of, icbinn_clnt_create_tcp, icbinn_clnt_create_v4v,
}
use icbinn.Client.Closing.{Balances, create_tcp-Balances}

-- `malloc` succeeds.
abbrev pub Allocates : {W : Type 0} → Net W → Type 0
Allocates {W} net = (w : W) → (net.malloc w).0 ≡ true

module _ {W : Type 0} (net : Net W) (memory : Allocates net) where
  create_by_fd-Returns :
      (sockfd : ℕ) (sin : SockAddr) (p : Proc W)
      → Returns (icbinn_clnt_create_by_fd net sockfd sin p)
  unfolding icbinn_clnt_create_by_fd xmalloc
  create_by_fd-Returns sockfd sin p =
      let made = net.clnt_vc_create sockfd sin.sin_addr sin.sin_port p.world in
      elim (Option-cases made.0) [
        | inl e ↦ rw (e, icbinn_clnt_create_by_fd) (_, refl)
        | inr (c, e) ↦ rw (e, icbinn_clnt_create_by_fd, memory made.1) (_, refl)
      ]

  create_of-Returns : (opened : Option (ℕ × SockAddr) × Proc W) → Returns (create_of net opened)
  unfolding create_of
  create_of-Returns (none, p) = (_, refl)
  create_of-Returns (some (sockfd, sin), p) =
      bind-Returns (icbinn_clnt_create_by_fd net sockfd sin p) _ (create_by_fd-Returns sockfd sin p)
        (λ out. (_, refl))

  pub create_tcp-Returns :
      (host : Option Bytes) (port : ℤ) (p : Proc W)
      → Returns (icbinn_clnt_create_tcp net host port p)
  unfolding icbinn_clnt_create_tcp
  create_tcp-Returns host port p = create_of-Returns (open_tcp_socket net host port p)

  pub create_v4v-Returns :
      (have_v4v : Bool) (domid port : ℤ) (p : Proc W)
      → Returns (icbinn_clnt_create_v4v net have_v4v domid port p)
  unfolding icbinn_clnt_create_v4v
  create_v4v-Returns have_v4v domid port p =
      create_of-Returns (open_v4v_socket net have_v4v domid port p)

  -- Where `malloc` succeeds, `icbinn_clnt_create_tcp` with a host returns. If it makes a client,
  -- destroying it leaves the descriptors that were open before. If it makes none of a socket that
  -- was connected, these are left at once; and if no socket was connected, those that the attempt
  -- has left.
  pub create_tcp-closes :
      (host : Bytes) (port : ℤ) (p : Proc W)
      → (out : Option Icbinn × Proc W) × (icbinn_clnt_create_tcp net (some host) port p ≡ done out)
        × Balances net p.fds (open_tcp_socket net (some host) port p) out
  create_tcp-closes host port p =
      let made = icbinn_clnt_create_tcp net (some host) port p in
      let opened = open_tcp_socket net (some host) port p in
      let (out, e) = create_tcp-Returns (some host) port p in
      (
        out,
        e,
        Returning-done (Balances net p.fds opened) made out (create_tcp-Balances net host port p) e,
      )
