-- ===== src/Daemon/Child.antt =====
-- svc_main.c, `main` in the child: from the forked process to a server in the exported directory.
use icbinn.Common.{ℕ, ◌%◌, pos, Bytes, Bool, Option, none, some, ◌==◌, if◌then◌else◌}
use icbinn.Protocol.{max_path_len}
use icbinn.Kernel.{Kernel, returned, failed, enoent}
use icbinn.Server.State.{Server, Run, done, exited, ◌>>=◌, init}
use icbinn.Server.Names.{owner_only}
use icbinn.Server.Readdir.{init_rand}
use icbinn.Daemon.{Sockets}
use icbinn.Daemon.Listen.{must}
use icbinn.Daemon.Accept.{Child}
use icbinn.Daemon.Input.{Transport, svc_input_loop}
use icbinn.Daemon.Export.{Bus, get_icbinn_path}

-- `svc_fd_create` and `svc_register` of the RPC library: whether they succeed.
pub record Registry (W : Type 0) : Type 0 where
  pub fd_create : ℕ → W → Bool × W
  pub register : W → Bool × W

-- `cl_ipaddr & 0xffff`
abbrev pub domid_of : ℕ → ℕ
domid_of cl_ipaddr = cl_ipaddr % 65536

module _ {W : Type 0} (k : Kernel W) (os : Sockets W) where
  -- `mkdir`, if there is nothing at the path. Its result is not looked at.
  unfoldable pub ensure_directory : Bytes → W → W
  ensure_directory icbinn_path w =
      let (r, w') = k.stat icbinn_path w in
      elim r [
        | failed errno ↦ if errno == enoent then (k.mkdir icbinn_path owner_only w').1 else w'
        | returned st ↦ w'
      ]

  -- `chdir` and `chroot`.
  unfoldable pub enter_export : Bytes → W → Run W
  unfolding ensure_directory
  enter_export icbinn_path w = do
    (_, w1) ← must (os.chdir icbinn_path (ensure_directory icbinn_path w))
    (_, w2) ← must (os.chroot icbinn_path w1)
    done w2

unfoldable pub register_program : {W : Type 0} → Registry W → ℕ → W → Run W
register_program rpc svfd w =
    let (transp, w1) = rpc.fd_create svfd w in
    let (registered, w2) = rpc.register w1 in
    if transp then (if registered then done w2 else exited) else exited

module _ {W : Type 0} (k : Kernel W) (os : Sockets W) (bus : Option (Bus W))
    (rpc : Registry W) where
  unfoldable pub start_child : Child W → Run (Server W)
  unfolding enter_export register_program
  start_child c = do
    s ← init_rand k (init c.proc.world)
    let found =
        get_icbinn_path bus (domid_of c.conn.cl_addr) max_path_len c.conn.socket_index s.world
    icbinn_path ← elim found.0 as (λ _. Run Bytes) [ none ↦ exited | some path ↦ done path ]
    w1 ← enter_export k os icbinn_path found.1
    w2 ← register_program rpc c.conn.svfd w1
    done (record s { world = w2 })

  -- The child, up to some rounds of its loop.
  unfoldable pub child_main : Transport W → (rounds : ℕ) → Child W → Run (Server W)
  unfolding start_child
  child_main tr rounds c = start_child c >>= svc_input_loop k os tr rounds (pos c.conn.svfd)
