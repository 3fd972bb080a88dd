-- ===== src/Examples/Programs.antt =====
-- `cmd_get` and `cmd_put` on the machine of Examples.antt, with a local file.
use icbinn.Common.{
  ◌≡◌, refl, pos, Bytes, some, [], ◌∷◌, ◌++◌, ◌==◌, if◌then◌else◌, length, take, drop, arith,
}
use icbinn.Kernel.{returned, failed}
use icbinn.Server.State.{Server, init, get_pathname_len}
use icbinn.Server.Files.{close_1_svc, open_1_svc, open_flags, lock_1_svc, lock_type}
use icbinn.Client.Calls.{icbinn_close, icbinn_open, icbinn_lock, open_code}
use icbinn.Shell.{Local, Session}
use icbinn.Shell.Commands.{cmd_get, cmd_put}
use icbinn.Shell.Putting.{Streams}
use icbinn.Shell.Getting.{Appends, cmd_get-copies}
use icbinn.Shell.Back.{Reopens, Creates, cmd_get-cmd_put}
use icbinn.Examples.{
  machine, machine-ReadsAs, direct, direct_pread, direct_pwrite, machine-WritesAs,
}

-- The state is the content of the one local file.
abbrev disk : Local Bytes
disk = record {
  open_file = λ path flags l. (returned 5, []);
  read = λ fd count l. (failed 9, l);
  write = λ fd bytes l. (returned (length bytes), l ++ bytes);
  close = λ fd l. l;
}

disk-Appends : Appends disk 5 (λ l. l)
disk-Appends = record { complete = λ bytes l. refl; appended = λ bytes l. refl; closed = λ l. refl }

abbrev remote : Bytes
remote = 1 ∷ 2 ∷ 3 ∷ 4 ∷ []

abbrev shell : Session (Server Bytes) Bytes
shell = record { conn = init remote; local = 6 ∷ []; printed = [] }

cmd_get-copies_example :
    (s' : Session (Server Bytes) Bytes) × (cmd_get
        (direct machine)
        disk
        5
        (pos 9)
        []
        (97 ∷ [])
        (98 ∷ [])
        shell
      ≡ some (pos 0, s'))
    × (s'.local ≡ remote)
unfolding icbinn_open icbinn_lock open_code open_1_svc lock_1_svc lock_type get_pathname_len
    open_flags
cmd_get-copies_example =
    cmd_get-copies machine (direct machine) (λ s. s) (direct_pread machine) disk 5 (λ l. l)
      disk-Appends (pos 3) remote (omega arith) 5 (pos 9) [] (97 ∷ []) (98 ∷ []) shell refl refl
      refl refl refl (machine-ReadsAs remote) (omega arith)

close_keeps : (c : Server Bytes) → (icbinn_close (direct machine) (pos 3) c).1.world ≡ c.world
unfolding icbinn_close close_1_svc
close_keeps c = refl

abbrev recorded : Bytes
recorded = 11 ∷ 12 ∷ 13 ∷ []

-- The state is what is still to be read of one local file, and the content of another one.
abbrev desk : Local (Bytes × Bytes)
desk = record {
  open_file = λ path flags l. if flags == 0 then (returned 5, l) else (returned 6, (l.0, []));
  read = λ fd count l. (returned (take count l.0), (drop count l.0, l.1));
  write = λ fd bytes l. (returned (length bytes), (l.0, l.1 ++ bytes));
  close = λ fd l. l;
}

desk-Streams : Streams desk 5 (λ l. l.0)
desk-Streams = record { gives = λ n l. refl; leaves = λ n l. refl }

desk-Appends : Appends desk 6 (λ l. l.1)
desk-Appends = record { complete = λ bytes l. refl; appended = λ bytes l. refl; closed = λ l. refl }

desk-Creates : Creates desk (99 ∷ []) 6 (λ l. l.1)
desk-Creates = record { created = λ l. refl; empty = λ l. refl }

machine-Reopens : Reopens machine (direct machine) (λ s. s) (λ w. w) (98 ∷ []) (pos 9) (pos 3)
unfolding icbinn_open icbinn_lock open_code open_1_svc lock_1_svc lock_type get_pathname_len
    open_flags
machine-Reopens = record {
  opened = λ c. refl;
  locked = λ c. refl;
  readable = λ c. machine-ReadsAs c.world;
}

abbrev copying : Session (Server Bytes) (Bytes × Bytes)
copying = record { conn = init []; local = (recorded, 8 ∷ []); printed = [] }

cmd_get-cmd_put_example :
    (s' s'' : Session (Server Bytes) (Bytes × Bytes)) × (cmd_put
        (direct machine)
        desk
        4
        (97 ∷ [])
        (98 ∷ [])
        copying
      ≡ some (pos 0, s'))
    × (cmd_get (direct machine) desk 4 (pos 9) [] (98 ∷ []) (99 ∷ []) s' ≡ some (pos 0, s''))
    × (s''.local.1 ≡ recorded)
unfolding icbinn_open icbinn_lock open_code open_1_svc lock_1_svc lock_type get_pathname_len
    open_flags
cmd_get-cmd_put_example =
    cmd_get-cmd_put machine (direct machine) (λ s. s) (direct_pread machine) (direct_pwrite machine)
      desk 5 (λ l. l.0) desk-Streams 6 (λ l. l.1) desk-Appends (pos 3) (pos 3) (λ w. w)
      machine-WritesAs close_keeps 4 (pos 9) [] (97 ∷ []) (98 ∷ []) (99 ∷ []) recorded copying refl
      refl refl refl refl refl machine-Reopens refl desk-Creates (omega arith) (omega arith)
