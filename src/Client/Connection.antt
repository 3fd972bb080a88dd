-- ===== src/Client/Connection.antt =====
-- libicbinn/src/client.c and util.c: how a client opens and closes its connection.
use Prim.Native.Nat.{bit_or}
use icbinn.Common.{
  ℕ, ◌-◌, ◌%◌, ℤ, pos, negsuc, port_number, is_nonzero, Bytes, Bool, Option, none, some, ◌∷◌,
  if◌then◌else◌,
}
use icbinn.Protocol.{prot_port, u32_size}
use icbinn.Kernel.{Sys, returned, failed}
use icbinn.Kernel.Process.{Proc, Family, inet, inet_v4v, remove_fd}
use icbinn.Server.State.{Run, done, exited, ◌>>=◌}

-- The system's and the RPC library's calls, a parameter. Addresses are IPv4, in the host's byte
-- order. `clnt_destroy` is preceded by `clnt_control` with CLSET_FD_CLOSE, for which the library
-- closes the descriptor of the handle.
pub record Net (W : Type 0) : Type 0 where
  pub socket : Family → W → Sys ℕ × W
  pub inet_pton : Bytes → Option ℕ
  pub gethostbyname : Bytes → W → Option ℕ × W
  pub connect : ℕ → (addr port : ℕ) → W → Sys (Unit {0}) × W
  pub close : ℕ → W → W
  pub clnt_vc_create : ℕ → (addr port : ℕ) → W → Option ℕ × W
  pub malloc : W → Bool × W
  pub clnt_destroy : ℕ → W → W

-- `struct sockaddr_in`
pub record SockAddr : Type 0 where
  pub sin_addr : ℕ
  pub sin_port : ℕ

-- ICBINN: the handle of the RPC library. `sockfd` is the descriptor that it was made of.
pub record Icbinn : Type 0 where
  pub c : ℕ
  pub sockfd : ℕ

-- `if (!port) port = ICBINN_PROT_PORT;` and `htons (port)`
abbrev pub port_or_default : ℤ → ℕ
port_or_default port = port_number (if is_nonzero port then port else pos prot_port)

-- the lower 32 bits of `0x1000000UL | domid`
abbrev pub domain_address : (domid : ℤ) → ℕ
domain_address (pos n) = bit_or 0x1000000 (n % u32_size)
domain_address (negsuc n) = bit_or 0x1000000 (u32_size - 1 - n % u32_size)

module _ {W : Type 0} (net : Net W) where
  abbrev Opened : Type 0
  Opened = Option (ℕ × SockAddr) × Proc W

  -- `xmalloc`, of an ICBINN; `abort` ends the process.
  unfoldable pub xmalloc : W → Run W
  xmalloc w = let (got, w') = net.malloc w in if got then done w' else exited

  unfoldable pub icbinn_clnt_create_by_fd : ℕ → SockAddr → Proc W → Run (Option Icbinn × Proc W)
  unfolding xmalloc
  icbinn_clnt_create_by_fd sockfd sa p =
      let (c, w) = net.clnt_vc_create sockfd sa.sin_addr sa.sin_port p.world in
      elim c [
        | none ↦ done (none, record p { world = w })
        | some c ↦ xmalloc w >>= λ (w' : W).
            done (some (record { c = c; sockfd = sockfd }), record p { world = w' })
      ]

  -- From `connect` on. A failure leaves the socket as it is.
  unfoldable pub connect_to : ℕ → SockAddr → Proc W → Opened
  connect_to sockfd sin p =
      let (r, w) = net.connect sockfd sin.sin_addr sin.sin_port p.world in
      elim r [
        | failed errno ↦ (none, record p { world = w })
        | returned _ ↦ (some (sockfd, sin), record p { world = w })
      ]

  -- The address of a host: a dotted quad, or else a name.
  unfoldable pub resolve : Bytes → W → Option ℕ × W
  resolve host w = elim (net.inet_pton host) [
    | some addr ↦ (some addr, w)
    | none ↦ net.gethostbyname host w
  ]

  -- From the new socket on. A name that is not found leaves it as it is.
  unfoldable pub connect_host : Bytes → (port : ℤ) → ℕ → Proc W → Opened
  unfolding resolve connect_to
  connect_host host port sockfd p =
      let (addr, w) = resolve host p.world in
      let p' = record p { world = w } in
      elim addr [
        | none ↦ (none, p')
        | some addr ↦
            connect_to sockfd (record { sin_addr = addr; sin_port = port_or_default port }) p'
      ]

  unfoldable pub open_tcp_socket : (host : Option Bytes) (port : ℤ) → Proc W → Opened
  unfolding connect_host
  open_tcp_socket none port p = (none, p)
  open_tcp_socket (some host) port p =
      let (r, w) = net.socket inet p.world in
      elim r [
        | failed errno ↦ (none, record p { world = w })
        | returned sockfd ↦
            connect_host host port sockfd (record { world = w; fds = sockfd ∷ p.fds })
      ]

  unfoldable pub open_v4v_socket : (have_v4v : Bool) (domid port : ℤ) → Proc W → Opened
  unfolding connect_to
  open_v4v_socket have_v4v domid port p =
      let (r, w) = net.socket inet_v4v p.world in
      let sin : SockAddr = record {
        sin_addr = domain_address domid;
        sin_port = port_or_default port;
      } in
      if have_v4v
      then elim r [
        | failed errno ↦ (none, record p { world = w })
        | returned sockfd ↦ connect_to sockfd sin (record { world = w; fds = sockfd ∷ p.fds })
      ]
      else (none, p)

  -- `if (!ret) close (sockfd);`
  unfoldable pub close_unmade : ℕ → Option Icbinn × Proc W → Option Icbinn × Proc W
  unfolding remove_fd
  close_unmade sockfd (none, p) =
      (none, record { world = net.close sockfd p.world; fds = remove_fd sockfd p.fds })
  close_unmade sockfd (some icb, p) = (some icb, p)

  -- The part that `icbinn_clnt_create_tcp` and `icbinn_clnt_create_v4v` share.
  unfoldable pub create_of : Opened → Run (Option Icbinn × Proc W)
  unfolding icbinn_clnt_create_by_fd close_unmade
  create_of (none, p) = done (none, p)
  create_of (some (sockfd, sin), p) =
      icbinn_clnt_create_by_fd sockfd sin p >>= λ (out : Option Icbinn × Proc W).
      done (close_unmade sockfd out)

  unfoldable pub icbinn_clnt_create_tcp :
      (host : Option Bytes) (port : ℤ) → Proc W → Run (Option Icbinn × Proc W)
  unfolding open_tcp_socket create_of
  icbinn_clnt_create_tcp host port p = create_of (open_tcp_socket host port p)

  unfoldable pub icbinn_clnt_create_v4v :
      (have_v4v : Bool) (domid port : ℤ) → Proc W → Run (Option Icbinn × Proc W)
  unfolding open_v4v_socket create_of
  icbinn_clnt_create_v4v have_v4v domid port p = create_of (open_v4v_socket have_v4v domid port p)

  unfoldable pub icbinn_clnt_destroy : Option Icbinn → Proc W → Proc W
  unfolding remove_fd
  icbinn_clnt_destroy none p = p
  icbinn_clnt_destroy (some icb) p = record {
    world = net.clnt_destroy icb.c p.world;
    fds = remove_fd icb.sockfd p.fds;
  }
