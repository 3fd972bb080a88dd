-- ===== src/Examples/Processes.antt =====
-- The server's process on an operating system that grants every call.
use icbinn.Common.{
  ℕ, suc, ◌≡◌, refl, pos, true, some, List, [], ◌∷◌, length, leb, ◌==◌, ◌&&◌, if◌then◌else◌, ◌+◌,
}
use icbinn.Protocol.{prot_port}
use icbinn.Kernel.{returned}
use icbinn.Kernel.Process.{Proc}
use icbinn.Server.State.{done, exited}
use icbinn.Server.Outcomes.{Returning}
use icbinn.Daemon.{Sockets}
use icbinn.Daemon.Options.{
  Flag, listen_on, use_tcp, configure, configure_lem, wanted, tcp_flags, are_valid, max_sockets,
}
use icbinn.Daemon.Accept.{Child}
use icbinn.Daemon.Main.{server_main}
use icbinn.Daemon.Parent.{HoldsApart, server_main-HoldsApart}
use icbinn.Daemon.Granted.{Grants, server_main-serves}

-- `next` gives a new descriptor.
abbrev pub granting : {W : Type 0} → (next : W → ℕ × W) → Sockets W
granting next = record {
  socket = λ family w. let (fd, w') = next w in (returned fd, w');
  reuse_addr = λ fd w. w;
  bind = λ fd port w. (returned tt, w);
  listen = λ fd backlog w. (returned tt, w);
  get_flags = λ fd w. (returned 2, w);
  set_flags = λ fd flags w. (returned tt, w);
  select = λ fds w. (returned fds, w);
  accept = λ fd w. let (fd', w') = next w in (returned (fd', 0x1000005), w');
  close = λ fd w. w;
  write_nothing = λ fd w. (returned 0, w);
  fork = λ w. (returned (w, w), w);
  ignore_children = λ w. (returned tt, w);
  chdir = λ path w. (returned tt, w);
  chroot = λ path w. (returned tt, w);
}

-- A machine that counts its descriptors.
abbrev counting : Sockets ℕ
counting = granting (λ w. (w, suc w))

abbrev two_ports : List Flag
two_ports = listen_on (some (pos 4000)) ∷ use_tcp ∷ listen_on (some (pos 5000)) ∷ []

abbrev parent : Proc ℕ
parent = record { world = 3; fds = [] }

configure_lem_example : configure true two_ports ≡ (
    if leb (length (wanted two_ports)) max_sockets && are_valid two_ports
    then done (record {
      port = if length (wanted two_ports) == 0 then pos prot_port ∷ [] else wanted two_ports;
      tflag = (if true then 0 else 1) + tcp_flags two_ports;
    })
    else exited)
configure_lem_example = configure_lem true two_ports

server_main-HoldsApart_example :
    Returning (HoldsApart counting two_ports) (server_main counting true 3 two_ports parent)
server_main-HoldsApart_example = server_main-HoldsApart counting true 3 two_ports parent refl

counting-Grants : Grants counting
counting-Grants = record {
  ignores = λ w. (tt, refl);
  sockets = λ family w. (w, refl);
  binds = λ fd port w. (tt, refl);
  listens = λ fd backlog w. (tt, refl);
  sets = λ fd flags w. (tt, refl);
  forks = λ w. ((w, w), refl);
}

server_main-serves_example :
    (out : List ℕ × (List (Child ℕ) × Proc ℕ)) × (server_main counting true 3 two_ports parent
      ≡ done out)
    × HoldsApart counting two_ports out
server_main-serves_example =
    server_main-serves counting counting-Grants 3 two_ports parent refl refl refl
