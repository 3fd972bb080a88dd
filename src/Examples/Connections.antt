-- ===== src/Examples/Connections.antt =====
-- The client's connection, its two programs, and a file that is used through it.
use icbinn.Common.{
  Option, ℕ, ap, ◌≡◌, refl, ℤ, pos, Bytes, true, none, some, List, [], ◌∷◌, ◌++◌, codes, length,
  arith, ◌+◌,
}
use icbinn.Kernel.{returned, failed}
use icbinn.Kernel.Process.{Proc, remove_fd}
use icbinn.Shell.Tidy.{Tracks}
use icbinn.Server.State.{Server, done, init}
use icbinn.Client.Stubs.{Stubs}
use icbinn.Client.Connection.{
  Net, Icbinn, resolve, connect_host, open_tcp_socket, icbinn_clnt_create_tcp,
}
use icbinn.Client.Closing.{Balances, create_tcp_leak}
use icbinn.Shell.{Local, Session}
use icbinn.Client.Allocating.{create_tcp-closes}
use icbinn.Fuse.Start.{Exit}
use icbinn.Shell.Main.{Main}
use icbinn.Shell.Parse.{words}
use icbinn.Shell.Interact.{Memory, run_cmd}
use icbinn.Shell.Main.{Opt, in_domain, with_port, client_main}
use icbinn.Shell.Ending.{Leaves, client_main-closes}
use icbinn.Shell.Arguments.{StaysWithin, run_cmd-StaysWithin}
use icbinn.Fuse.Start.{Pointers, fuse_program}
use icbinn.Fuse.Arguments.{Mounts, fuse_program_runs}
use icbinn.Wire.FileStore.{Use, gets, puts, on_content, on_server, run, run-on_content}
use icbinn.Examples.{
  machine, direct, direct_pread, direct_pwrite, machine-WritesAs, machine-ReadsAs,
}

-- A network on which every call succeeds.
abbrev pub network : Net Bytes
network = record {
  socket = λ family w. (returned 7, w);
  inet_pton = λ host. some 0x7f000001;
  gethostbyname = λ host w. (none, w);
  connect = λ fd addr port w. (returned tt, w);
  close = λ fd w. w;
  clnt_vc_create = λ fd addr port w. (some 1, w);
  malloc = λ w. (true, w);
  clnt_destroy = λ c w. w;
}

-- A network on which no host has a name.
abbrev nameless : Net Bytes
nameless = record network { inet_pton = λ host. none }

abbrev process : Proc Bytes
process = record { world = []; fds = 0 ∷ 1 ∷ 2 ∷ [] }

create_tcp-closes_example :
    (out : Option Icbinn × Proc Bytes) × (icbinn_clnt_create_tcp network
        (some (codes "127.0.0.1"))
        (pos 0)
        process
      ≡ done out)
    × Balances network process.fds
        (open_tcp_socket network (some (codes "127.0.0.1")) (pos 0) process)
        out
create_tcp-closes_example =
    create_tcp-closes network (λ w. refl) (codes "127.0.0.1") (pos 0) process

unresolved : (open_tcp_socket nameless (some (codes "host")) (pos 0) process).0 ≡ none
unfolding open_tcp_socket connect_host resolve
unresolved = refl

create_tcp_leak_example :
    (q : Proc Bytes) × (icbinn_clnt_create_tcp nameless (some (codes "host")) (pos 0) process
      ≡ done (none, q))
    × (q.fds ≡ 7 ∷ process.fds)
create_tcp_leak_example = create_tcp_leak nameless (codes "host") (pos 0) process 7 refl unresolved

abbrev disk : Local Bytes
disk = record {
  open_file = λ path flags l. (failed 2, l);
  read = λ fd count l. (failed 9, l);
  write = λ fd bytes l. (failed 9, l);
  close = λ fd l. l;
}

abbrev memory : Memory
memory = record {
  fuel = 10;
  stat_buf = record { size = 0; type = pos 0 };
  dirent = record { name = []; type = pos 0 };
  junk_fd = pos 9;
  buf = [];
}

abbrev stubs : Icbinn → Stubs (Server Bytes)
stubs icb = direct machine

abbrev conn : Icbinn → Server Bytes
conn icb = init (1 ∷ 2 ∷ [])

abbrev opts : List Opt
opts = in_domain (pos 5) ∷ with_port (pos 4000) ∷ in_domain (pos 6) ∷ []

-- Local files of which only the descriptors are kept.
abbrev shelf : Local (List ℕ)
shelf = record {
  open_file = λ path flags l. (returned 5, 5 ∷ l);
  read = λ fd count l. (returned [], l);
  write = λ fd bytes l. (returned (length bytes), l);
  close = λ fd l. remove_fd fd l;
}

five : (fd : ℕ) → returned 5 ≡ returned fd → 5 ≡ fd
five fd e = cc

shelf-Tracks : Tracks shelf (λ l. l)
shelf-Tracks = record {
  opens = λ path flags fd l e. ap (λ x. x ∷ l) (five fd e);
  refuses = λ path flags errno l e. cc;
  reads = λ fd n l. refl;
  writes = λ fd bytes l. refl;
  closes = λ fd l. refl;
}

abbrev commands : List (Option Bytes)
commands = some (codes "put a b\n") ∷ none ∷ some (codes "quit\n") ∷ []

client_main-closes_example :
    (out : Main (Server Bytes) (List ℕ) Bytes) × (client_main network true stubs conn shelf memory
        opts commands [] process
      ≡ done out)
    × Leaves (λ l. l) process.fds [] out
client_main-closes_example =
    client_main-closes network stubs conn shelf memory (λ l. l) shelf-Tracks (λ w. refl) opts
      commands [] process

abbrev a_session : Session (Server Bytes) Bytes
a_session = record { conn = init (1 ∷ 2 ∷ []); local = []; printed = [] }

run_cmd-StaysWithin_example :
    StaysWithin (run_cmd (direct machine) disk memory (codes "ls /") a_session)
unfolding words
run_cmd-StaysWithin_example =
    run_cmd-StaysWithin (direct machine) disk memory (codes "ls /") a_session (omega arith)

-- A file system that is unmounted at once.
abbrev fuse_main : Icbinn → Pointers → Bytes → ℤ × Bytes
fuse_main icb args w = (pos 0, w)

fuse_program_runs_example :
    (e : Exit Bytes) × (fuse_program network true fuse_main
        (codes "icbinn-fs" ∷ (codes "-d" ∷ codes "5" ∷ []) ++ codes "/mnt" ∷ [])
        (1 + length (codes "-d" ∷ codes "5" ∷ []))
        (icbinn.Fuse.Start.in_domain (pos 5) ∷ [])
        process
      ≡ done e)
    × Mounts process.fds (codes "icbinn-fs" ∷ codes "-s" ∷ codes "/mnt" ∷ []) e
fuse_program_runs_example =
    fuse_program_runs network fuse_main (λ w. refl) (codes "icbinn-fs")
      (codes "-d" ∷ codes "5" ∷ []) (codes "/mnt" ∷ []) (icbinn.Fuse.Start.in_domain (pos 5) ∷ [])
      process

abbrev uses : List Use
uses = puts (7 ∷ 8 ∷ []) 1 ∷ gets 4 0 ∷ puts [] 9 ∷ gets 2 1 ∷ []

abbrev remote : Server Bytes
remote = init (1 ∷ 2 ∷ 3 ∷ [])

run-on_content_example :
    ((run (on_server (direct machine) (pos 3)) uses remote).0
      ≡ (run on_content uses (1 ∷ 2 ∷ 3 ∷ [])).0)
    × ((run (on_server (direct machine) (pos 3)) uses remote).1.world
        ≡ (run on_content uses (1 ∷ 2 ∷ 3 ∷ [])).1)
run-on_content_example =
    run-on_content machine (direct machine) (λ s. s) (direct_pread machine) (direct_pwrite machine)
      (pos 3) (λ w. w) machine-WritesAs machine-ReadsAs uses remote
      (omega arith, (omega arith, (omega arith, (omega arith, tt))))
