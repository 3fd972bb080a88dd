-- ===== src/Daemon.antt =====
-- libicbinn/server/svc_main.c and dbusrpc.c: the process that listens, forks a child for each
-- connection, and in the child the way to the exported directory and the loop over requests.
--
-- The calls of the operating system, of the RPC library and of the bus are parameters.
pub mod Options
pub mod Listen
pub mod Accept
pub mod Export
pub mod Child
pub mod Input
pub mod Fields
pub mod Descriptors
pub mod Listening
pub mod Main
pub mod Parent
pub mod Granted
pub mod Replied
pub mod Guarded
pub mod Served
pub mod Messages
pub mod Confined
pub mod Loop
pub mod Alive
use icbinn.Common.{ℕ, ℤ, Bytes, Bool, List, [], ◌∷◌, ◌==◌, if◌then◌else◌, ◌≡◌, refl}
use icbinn.Kernel.{Sys}
use icbinn.Kernel.Process.{Family, Proc, remove_fd}

-- An address is that of an IPv4 peer, in the host's byte order.
pub record Sockets (W : Type 0) : Type 0 where
  pub socket : Family → W → Sys ℕ × W
  -- `setsockopt` of SO_REUSEADDR, whose result is not looked at
  pub reuse_addr : ℤ → W → W
  pub bind : ℕ → (port : ℕ) → W → Sys (Unit {0}) × W
  pub listen : ℕ → (backlog : ℕ) → W → Sys (Unit {0}) × W
  -- `fcntl` with F_GETFL and F_SETFL
  pub get_flags : ℤ → W → Sys ℕ × W
  pub set_flags : ℕ → ℤ → W → Sys (Unit {0}) × W
  -- `select` for reading, with no timeout: the descriptors that are ready
  pub select : List ℕ → W → Sys (List ℕ) × W
  -- the new descriptor and the peer's address
  pub accept : ℕ → W → Sys (ℕ × ℕ) × W
  pub close : ℕ → W → W
  -- `write` of no bytes
  pub write_nothing : ℤ → W → Sys ℕ × W
  -- the machine as the parent sees it, and as the child does
  pub fork : W → Sys (W × W) × W
  -- `signal (SIGCHLD, SIG_IGN)`
  pub ignore_children : W → Sys (Unit {0}) × W
  pub chdir : Bytes → W → Sys (Unit {0}) × W
  pub chroot : Bytes → W → Sys (Unit {0}) × W

module _ {W : Type 0} (os : Sockets W) where
  unfoldable pub close_fd : ℕ → Proc W → Proc W
  unfolding remove_fd
  close_fd fd p = record { world = os.close fd p.world; fds = remove_fd fd p.fds }

  -- `for (i = 0; i < num_icbinn_sockets; i++) close (sockfds[i]);`
  unfoldable pub close_all : List ℕ → Proc W → Proc W
  close_all [] p = p
  close_all (fd ∷ sockfds) p = close_all sockfds (close_fd fd p)
