-- ===== src/Daemon/Confined.antt =====
-- What a child has done before it serves its first request, and how it is served then.
use icbinn.Common.{
  ℕ, ◌<◌, ◌≡◌, refl, ap, ◌∙◌, ℤ, pos, Bytes, Option-cases, codes, Option, some, length, inl, inr,
  arith,
}
use icbinn.Protocol.{max_path_len}
use icbinn.Kernel.{Kernel, Sys-cases, returned}
use icbinn.Server.State.{Server, done, ◌>>=◌, init}
use icbinn.Server.Outcomes.{NoFault, bind-NoFault, Returning, bind-Returning}
use icbinn.Server.Overruns.{ChecksPaths}
use icbinn.Server.Blocks.{OwnsBlocks}
use icbinn.Server.Buffers.{guarded}
use icbinn.Server.Readdir.{init_rand}
use icbinn.Daemon.{Sockets}
use icbinn.Daemon.Listen.{must}
use icbinn.Daemon.Listening.{must-Returning}
use icbinn.Daemon.Accept.{Child}
use icbinn.Daemon.Export.{Bus, get_icbinn_path}
use icbinn.Daemon.Fields.{get_icbinn_path-fits}
use icbinn.Daemon.Child.{
  Registry, domid_of, ensure_directory, enter_export, register_program, start_child, child_main,
}
use icbinn.Daemon.Input.{Transport}
use icbinn.Daemon.Guarded.{child_main-guarded}
use icbinn.Daemon.Loop.{loop-NoFault, input_loop-IsSafe}

-- From the machine `w`, `open` has given the two descriptors for the random devices, one after the
-- other, and has left the machine `w'`.
pub record HasOpened {W : Type 0} (k : Kernel W) (w : W) (random_fd urandom_fd : ℤ) (w' : W)
    : Type 0 where
  pub between : W
  pub random : ℕ
  pub urandom : ℕ
  pub first : k.open_file (codes "/dev/random") 0 0 w ≡ (returned random, between)
  pub second : k.open_file (codes "/dev/urandom") 0 0 between ≡ (returned urandom, w')
  pub random_is : random_fd ≡ pos random
  pub urandom_is : urandom_fd ≡ pos urandom

module _ {W : Type 0} (k : Kernel W) (os : Sockets W) (bus : Option (Bus W))
    (rpc : Registry W) where
  -- The directory that was found for the connection, and the calls that have succeeded for it
  -- before the state `w`.
  pub record Entered (path : Bytes) (w : W) : Type 0 where
    pub before : W
    pub changed : (os.chdir path before).0 ≡ returned tt
    pub confined : os.chroot path (os.chdir path before).1 ≡ (returned tt, w)

  enter_export-Entered :
      (path : Bytes) (w : W) → Returning (Entered path) (enter_export k os path w)
  unfolding enter_export
  enter_export-Entered path w =
      let w' = ensure_directory k os path w in
      bind-Returning _ (Entered path) (must (os.chdir path w')) _ (must-Returning _) (λ out c.
        bind-Returning _ (Entered path) (must (os.chroot path out.1)) _ (must-Returning _)
          (λ out' r. record {
            before = w';
            changed = ap (λ x. x.0) c;
            confined = ap (λ x. os.chroot path x.1) c ∙ r;
          }))

  -- A child that is going to serve a connection.
  pub record IsConfined (c : Child W) (s : Server W) : Type 0 where
    pub asked : W
    pub path : Bytes
    pub given :
        (get_icbinn_path bus (domid_of c.conn.cl_addr) max_path_len c.conn.socket_index asked).0
        ≡ some path
    pub not_empty : 0 < length path
    pub fits : length path < max_path_len
    pub inside : W
    pub entered : Entered path inside
    pub registered : register_program rpc c.conn.svfd inside ≡ done s.world
    pub devices : HasOpened k c.proc.world s.random_fd s.urandom_fd asked
    pub owns : OwnsBlocks s

  -- the devices are open, and there is no listing yet
  abbrev Ready : W → Server W → Type 0
  Ready w s = HasOpened k w s.random_fd s.urandom_fd s.world × OwnsBlocks s

  init_rand-Ready : (w : W) → Returning (Ready w) (init_rand k (init w))
  unfolding init_rand
  init_rand-Ready w =
      let (r, w') = k.open_file (codes "/dev/random") 0 0 w in
      elim (Sys-cases r) [
        | inl (errno, e) ↦ rw (e, init_rand) tt
        | inr (random, e) ↦ elim (Sys-cases (k.open_file (codes "/dev/urandom") 0 0 w').0) [
          | inl (errno, f) ↦ rw (e, f, init_rand) tt
          | inr (urandom, f) ↦
              rw (e, f, init_rand)
                (
                  record {
                    between = w';
                    random = random;
                    urandom = urandom;
                    first = ap (λ x. (x, w')) e;
                    second = ap (λ x. (x, (k.open_file (codes "/dev/urandom") 0 0 w').1)) f;
                    random_is = refl;
                    urandom_is = refl;
                  },
                  record { owned = refl; untouched = λ x. refl },
                )
        ]
      ]

  register-Returning :
      (svfd : ℕ) (w : W)
      → Returning (λ (w' : W). register_program rpc svfd w ≡ done w') (register_program rpc svfd w)
  unfolding register_program
  register-Returning svfd w = ground arith

  -- From a path that was found on.
  entered-IsConfined :
      (c : Child W) (s : Server W) (path : Bytes) (w : W)
      → Ready c.proc.world s
      → (get_icbinn_path bus (domid_of c.conn.cl_addr) max_path_len c.conn.socket_index s.world).0
        ≡ some path
      → Returning (IsConfined c) (
          enter_export k os path w >>= λ (w1 : W).
          register_program rpc c.conn.svfd w1 >>= λ (w2 : W). done (record s { world = w2 }))
  entered-IsConfined c s path w (devices, owns) given =
      let (some_byte, short) =
        get_icbinn_path-fits bus (domid_of c.conn.cl_addr) c.conn.socket_index max_path_len s.world
          path (omega arith) given in
      bind-Returning (Entered path) (IsConfined c) (enter_export k os path w) _
        (enter_export-Entered path w)
        (λ w1 entered.
          bind-Returning _ (IsConfined c) (register_program rpc c.conn.svfd w1) _
            (register-Returning c.conn.svfd w1)
            (λ w2 registered. record {
              asked = s.world;
              path = path;
              given = given;
              not_empty = some_byte;
              fits = short;
              inside = w1;
              entered = entered;
              registered = registered;
              devices = devices;
              owns = record { owned = owns.owned; untouched = owns.untouched };
            }))

  start_child-Confines : (c : Child W) → Returning (IsConfined c) (start_child k os bus rpc c)
  unfolding start_child
  start_child-Confines c =
      bind-Returning (Ready c.proc.world) (IsConfined c) (init_rand k (init c.proc.world)) _
        (init_rand-Ready c.proc.world)
        (λ s ready.
          let found =
            get_icbinn_path bus (domid_of c.conn.cl_addr) max_path_len c.conn.socket_index
              s.world in
          elim (Option-cases found.0) [
            | inl e ↦ rw e tt
            | inr (path, e) ↦ rw e (entered-IsConfined c s path found.1 ready e)
          ])

  start_child-NoFault : (c : Child W) → NoFault (start_child k os bus rpc c)
  unfolding start_child init_rand enter_export register_program
  start_child-NoFault c = ground arith

  -- A child that goes on to serve has been given a path for its connection's domain and listening
  -- socket, of 1 to 4095 bytes, has entered that directory by `chdir` and then `chroot`, both of
  -- which succeeded, has registered its connection after that, and has the descriptors for the
  -- random devices that `open` of "/dev/random" and then of "/dev/urandom" gave it at its start;
  -- and it has allocated no heap blocks but those that it has freed and those of READDIR's static
  -- result. In any other case the process ends.
  pub start_child-IsConfined :
      (c : Child W)
      → NoFault (start_child k os bus rpc c) × Returning (IsConfined c) (start_child k os bus rpc c)
  start_child-IsConfined c = (start_child-NoFault c, start_child-Confines c)

  -- On a machine whose `stat` refuses paths that are empty or have `max_path_len` bytes or more, a
  -- child, from its start through any number of rounds of its loop and whatever requests the
  -- transport brings, does not access the path buffer of READDIR outside its bounds. Nor does it
  -- ask for more bytes than `readbuf` takes: the run is the same on a machine on which `pread`,
  -- `readlink` and `read` of more than `max_data` bytes do anything else. When it has made these
  -- rounds it has allocated as many heap blocks for listings as it has freed and READDIR's static
  -- result has.
  pub child_main-IsSafe :
      ChecksPaths k
      → (past : Kernel W) (tr : Transport W) (rounds : ℕ) (c : Child W)
      → NoFault (child_main k os bus rpc tr rounds c)
        × (child_main (guarded k past) os bus rpc tr rounds c ≡ child_main k os bus rpc tr rounds c)
        × Returning OwnsBlocks (child_main k os bus rpc tr rounds c)
  unfolding child_main
  child_main-IsSafe checks past tr rounds c = (
    bind-NoFault (start_child k os bus rpc c) _ (start_child-NoFault c)
        (λ s e. loop-NoFault k os tr (pos c.conn.svfd) checks rounds s),
    child_main-guarded k past os bus rpc tr rounds c,
    bind-Returning (IsConfined c) OwnsBlocks (start_child k os bus rpc c) _ (start_child-Confines c)
        (λ s h. (input_loop-IsSafe k os tr (pos c.conn.svfd) checks rounds s h.owns).1),
  )
