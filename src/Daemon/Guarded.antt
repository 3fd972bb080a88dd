-- ===== src/Daemon/Guarded.antt =====
-- A child of svc_main.c and the buffer `readbuf` of its handlers.
use icbinn.Common.{ℕ, zero, suc, ◌≡◌, refl, ℤ, pos, List, [], ◌∷◌, Option, inl, inr, if◌then◌else◌}
use icbinn.Protocol.{Request}
use icbinn.Kernel.{Kernel, Sys-cases}
use icbinn.Server.State.{Server, done}
use icbinn.Server.Buffers.{guarded, bind-same, bind_cong, serve-guarded}
use icbinn.Server.Readdir.{init_rand}
use icbinn.Server.Dispatch.{serve}
use icbinn.Daemon.{Sockets}
use icbinn.Daemon.Accept.{Child}
use icbinn.Daemon.Export.{Bus}
use icbinn.Daemon.Child.{Registry, ensure_directory, enter_export, start_child, child_main}
use icbinn.Daemon.Input.{
  Transport, check_client_alive, getreqset, select_round, input_round, svc_input_loop,
}

module _ {W : Type 0} (k past : Kernel W) (os : Sockets W) (rpc : Transport W) (svfd : ℤ) where
  abbrev g : Kernel W
  g = guarded k past

  getreqset-guarded :
      (reqs : List Request) (s : Server W) → getreqset g os rpc reqs s ≡ getreqset k os rpc reqs s
  unfolding getreqset
  getreqset-guarded [] s = refl
  getreqset-guarded (req ∷ reqs) s =
      bind_cong (serve g req s) (serve k req s) _ _ (serve-guarded k past req s)
        (λ out. getreqset-guarded reqs _)

  select-guarded : (s : Server W) → select_round g os rpc svfd s ≡ select_round k os rpc svfd s
  unfolding select_round check_client_alive
  select-guarded s = elim (Sys-cases (rpc.select s.world).0) [
    | inl (errno, e) ↦ rw (e, select_round) refl
    | inr (zero, e) ↦ rw (e, select_round) refl
    | inr (suc ready, e) ↦ rw (e, select_round) (getreqset-guarded _ _)
  ]

  loop-guarded :
      (rounds : ℕ) (s : Server W)
      → svc_input_loop g os rpc rounds svfd s ≡ svc_input_loop k os rpc rounds svfd s
  unfolding svc_input_loop input_round check_client_alive
  loop-guarded zero s = refl
  loop-guarded (suc rounds) s =
      bind_cong (input_round g os rpc svfd s) (input_round k os rpc svfd s) _ _
        (bind-same
          (if rpc.in_fdset svfd s.world then done s else check_client_alive k os rpc svfd s) _ _
          select-guarded)
        (loop-guarded rounds)

-- A child does the same on a machine that is unknown past the end of `readbuf`.
pub child_main-guarded :
    {W : Type 0} (k past : Kernel W) (os : Sockets W) (bus : Option (Bus W)) (rpc : Registry W)
    (tr : Transport W) (rounds : ℕ) (c : Child W)
    → child_main (guarded k past) os bus rpc tr rounds c ≡ child_main k os bus rpc tr rounds c
unfolding child_main start_child enter_export ensure_directory init_rand
child_main-guarded k past os bus rpc tr rounds c =
    bind-same (start_child k os bus rpc c) _ _ (loop-guarded k past os tr (pos c.conn.svfd) rounds)
