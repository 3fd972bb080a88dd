-- ===== src/Daemon/Served.antt =====
-- A child of svc_main.c that is let in, from its start on.
use icbinn.Common.{ℕ, ◌≡◌, refl, pos, Bytes, true, Option, some, codes}
use icbinn.Protocol.{max_path_len}
use icbinn.Kernel.{Kernel}
use icbinn.Server.State.{Server, done, init}
use icbinn.Server.Outcomes.{Returns, bind-Returns, Returning-done}
use icbinn.Server.Overruns.{ChecksPaths}
use icbinn.Server.Pages.{HasMemory}
use icbinn.Server.Blocks.{OwnsBlocks}
use icbinn.Server.Readdir.{init_rand}
use icbinn.Daemon.{Sockets}
use icbinn.Daemon.Listen.{must}
use icbinn.Daemon.Granted.{Succeeds, must-Returns}
use icbinn.Daemon.Accept.{Child}
use icbinn.Daemon.Export.{Bus, get_icbinn_path}
use icbinn.Daemon.Child.{
  Registry, domid_of, ensure_directory, enter_export, register_program, start_child, child_main,
}
use icbinn.Daemon.Input.{Transport, svc_input_loop}
use icbinn.Daemon.Replied.{AnswersRounds, input_loop-AnswersRounds}
use icbinn.Daemon.Confined.{child_main-IsSafe}
use icbinn.Daemon.Alive.{IsOpen, input_loop-Returns}

-- What a child needs: the devices, a path for its connection, `chdir` and `chroot`, and the RPC
-- library.
pub record Admits {W : Type 0} (k : Kernel W) (os : Sockets W) (bus : Option (Bus W))
    (rpc : Registry W) (c : Child W) : Type 0 where
  pub devices : (path : Bytes) → Succeeds (k.open_file path 0 0)
  pub path :
      (w : W)
      → (path : Bytes) × ((get_icbinn_path bus
            (domid_of c.conn.cl_addr)
            max_path_len
            c.conn.socket_index
            w).0
          ≡ some path)
  pub changes : (path : Bytes) → Succeeds (os.chdir path)
  pub confines : (path : Bytes) → Succeeds (os.chroot path)
  pub creates : (w : W) → (rpc.fd_create c.conn.svfd w).0 ≡ true
  pub registers : (w : W) → (rpc.register w).0 ≡ true

module _ {W : Type 0} (k : Kernel W) (os : Sockets W) (bus : Option (Bus W)) (rpc : Registry W)
    (c : Child W) (admits : Admits k os bus rpc c) where
  init_rand-Returns : (s : Server W) → Returns (init_rand k s)
  unfolding init_rand
  init_rand-Returns s =
      let (fd, e) = admits.devices (codes "/dev/random") s.world in
      let w = (k.open_file (codes "/dev/random") 0 0 s.world).1 in
      let (fd', f) = admits.devices (codes "/dev/urandom") w in rw (e, f, init_rand) (_, refl)

  enter_export-Returns : (path : Bytes) (w : W) → Returns (enter_export k os path w)
  unfolding enter_export
  enter_export-Returns path w =
      let w' = ensure_directory k os path w in
      let (_, e) = admits.changes path w' in
      bind-Returns (must (os.chdir path w')) _ (must-Returns _ _ e) (λ out.
        let (_, f) = admits.confines path out.1 in
        bind-Returns (must (os.chroot path out.1)) _ (must-Returns _ _ f) (λ out'. (_, refl)))

  register-Returns : (w : W) → Returns (register_program rpc c.conn.svfd w)
  unfolding register_program
  register-Returns w = rw (admits.creates w, admits.registers _, register_program) (_, refl)

  start_child-Returns : Returns (start_child k os bus rpc c)
  unfolding start_child
  start_child-Returns =
      bind-Returns (init_rand k (init c.proc.world)) _ (init_rand-Returns (init c.proc.world)) (λ s.
        let (path, e) = admits.path s.world in
        rw e (
          bind-Returns (enter_export k os path _) _ (enter_export-Returns path _) (λ w1.
            bind-Returns (register_program rpc c.conn.svfd w1) _ (register-Returns w1)
              (λ w2. (_, refl)))))

  -- A child for which the random devices open, the bus gives a path, `chdir` and `chroot` succeed
  -- and the RPC library takes the connection, and whose connection stays open and can be written
  -- to, on a machine where `malloc` succeeds and `stat` refuses paths that are empty or too long,
  -- gets from its start through any number of rounds of its loop, whatever requests come, and the
  -- process does not end. In each round in which descriptors are ready, every request that has
  -- come goes to its handler, which returns, and its result is sent as the reply before the next
  -- request is handled; in the others nothing but the machine changes. In the end the child has
  -- allocated as many heap blocks for listings as it has freed and READDIR's static result has.
  pub child_main-serves :
      ChecksPaths k
      → HasMemory k
      → (tr : Transport W) (rounds : ℕ) → IsOpen k os tr (pos c.conn.svfd)
      → (start s : Server W) × (start_child k os bus rpc c ≡ done start)
        × (child_main k os bus rpc tr rounds c ≡ done s)
        × AnswersRounds k os tr (pos c.conn.svfd) rounds start s
        × OwnsBlocks s
  unfolding child_main
  child_main-serves checks memory tr rounds is_open =
      let svfd = pos c.conn.svfd in
      let m = child_main k os bus rpc tr rounds c in
      let (start, a) = start_child-Returns in
      let (s, e) = input_loop-Returns k os tr svfd checks memory is_open rounds start in
      let run : m ≡ done s = rw a e in
      (
        start,
        s,
        a,
        run,
        Returning-done (AnswersRounds k os tr svfd rounds start)
            (svc_input_loop k os tr rounds svfd start) s
            (input_loop-AnswersRounds k os tr svfd rounds start) e,
        Returning-done OwnsBlocks m s (child_main-IsSafe k os bus rpc checks k tr rounds c).2 run,
      )
