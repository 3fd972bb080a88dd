-- ===== src/Examples/Children.antt =====
-- A child of the server, on an operating system that grants every call and on others.
use icbinn.Common.{if◌then◌else◌, ◌≡◌, refl, pos, Bytes, true, some, [], ◌∷◌, codes, get_elem?}
use icbinn.Protocol.{Request}
use icbinn.Kernel.{returned, failed}
use icbinn.Server.State.{Server, done, exited, init}
use icbinn.Server.Outcomes.{NoFault, Returning}
use icbinn.Server.Blocks.{OwnsBlocks}
use icbinn.Server.Buffers.{guarded}
use icbinn.Daemon.{Sockets}
use icbinn.Daemon.Accept.{Child}
use icbinn.Daemon.Export.{Bus, skip_fields, take_field, pick_path, get_icbinn_path}
use icbinn.Daemon.Fields.{split, usable, get_icbinn_path-field}
use icbinn.Daemon.Child.{Registry, start_child, child_main}
use icbinn.Daemon.Confined.{IsConfined, start_child-IsConfined, child_main-IsSafe}
use icbinn.Daemon.Input.{Transport, check_client_alive, eagain}
use icbinn.Daemon.Alive.{IsOpen, counts_as_alive, check_client_alive_lem}
use icbinn.Daemon.Replied.{AnswersRounds}
use icbinn.Daemon.Served.{Admits, child_main-serves}
use icbinn.Examples.Processes.{granting}
use icbinn.Examples.{machine, lossy, machine-ChecksPaths}

-- A bus that knows one domain, with two directories for it.
abbrev bus : Bus Bytes
bus = record {
  init = λ w. (true, w);
  find_vm_by_domid = λ domid w. (some (codes "/vm/5"), w);
  get_icbinn_path = λ path w. (some (some (codes "/a,/bc")), w);
  shutdown = λ w. w;
}

get_icbinn_path-field_example :
    (get_icbinn_path (some bus) 5 4096 1 []).0 ≡ usable 4096 (get_elem? (split (codes "/a,/bc")) 1)
get_icbinn_path-field_example =
    get_icbinn_path-field bus 5 4096 1 [] (codes "/vm/5") (codes "/a,/bc") refl refl refl

abbrev single : Sockets Bytes
single = granting (λ w. (9, w))

abbrev registry : Registry Bytes
registry = record { fd_create = λ fd w. (true, w); register = λ w. (true, w) }

abbrev child : Child Bytes
child = record {
  conn = record { svfd = 9; socket_index = 1; cl_addr = 0x1000005 };
  proc = record { world = 1 ∷ 2 ∷ []; fds = 9 ∷ [] };
}

start_child-IsConfined_example :
    NoFault (start_child machine single (some bus) registry child)
    × Returning
        (IsConfined machine single (some bus) registry child)
        (start_child machine single (some bus) registry child)
start_child-IsConfined_example = start_child-IsConfined machine single (some bus) registry child

abbrev a_listing : Request
a_listing = Request.readdir (record { dir = 47 ∷ []; offset = 0; count = 5 })

-- Each round brings two requests.
abbrev transport : Transport Bytes
transport = record {
  in_fdset = λ fd w. true;
  select = λ w. (returned 1, w);
  receive = λ w. (a_listing ∷ Request.null ∷ [], w);
  reply = λ response w. w;
}

child_main-IsSafe_example :
    NoFault (child_main machine single (some bus) registry transport 2 child)
    × (child_main (guarded machine lossy) single (some bus) registry transport 2 child
        ≡ child_main machine single (some bus) registry transport 2 child)
    × Returning OwnsBlocks (child_main machine single (some bus) registry transport 2 child)
child_main-IsSafe_example =
    child_main-IsSafe machine single (some bus) registry machine-ChecksPaths lossy transport 2 child

abbrev serving : Server Bytes
serving = init (1 ∷ 2 ∷ [])

single-IsOpen : IsOpen machine single transport (pos 9)
single-IsOpen = record { valid = λ e. cc; flags = λ w. (2, refl); writable = λ w. (0, refl) }

child-Admits : Admits machine single (some bus) registry child
unfolding get_icbinn_path pick_path skip_fields take_field
child-Admits = record {
  devices = λ path w. (3, refl);
  path = λ w. (codes "/bc", refl);
  changes = λ path w. (tt, refl);
  confines = λ path w. (tt, refl);
  creates = λ w. refl;
  registers = λ w. refl;
}

child_main-serves_example :
    (begun s : Server Bytes) × (start_child machine single (some bus) registry child ≡ done begun)
    × (child_main machine single (some bus) registry transport 2 child ≡ done s)
    × AnswersRounds machine single transport (pos 9) 2 begun s
    × OwnsBlocks s
child_main-serves_example =
    child_main-serves machine single (some bus) registry child child-Admits machine-ChecksPaths
      (λ n w. refl) transport 2 single-IsOpen

-- A socket whose buffer is full.
abbrev full : Sockets Bytes
full = record single { write_nothing = λ fd w. (failed eagain, w) }

check_client_alive_lem_example : check_client_alive machine full transport (pos 9) serving ≡ (
    if counts_as_alive machine full transport (pos 9) (returned 2) (failed eagain)
    then done serving
    else exited)
check_client_alive_lem_example = check_client_alive_lem machine full transport (pos 9) serving
