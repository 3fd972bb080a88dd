-- ===== src/Examples/Wired.antt =====
-- A server with its client's requests and replies on two wires.
use icbinn.Common.{refl, pos, Bytes, true, Option, none, some, List, [], ◌∷◌, length, take, drop}
use icbinn.Protocol.{Request, Response}
use icbinn.Kernel.{Kernel, returned, failed}
use icbinn.Kernel.RegularFile.{write_at}
use icbinn.Daemon.{Sockets}
use icbinn.Daemon.Input.{Transport}
use icbinn.Server.Simulation.{Simulates}
use icbinn.Wire.Link.{CarriesAll}
use icbinn.Wire.Rounds.Every.{over_rounds, rounds-CarriesAll}
use icbinn.Wire.Rounds.{Wires, cleaned}
use icbinn.Examples.Processes.{granting}

-- The content of the file, what the client has sent, and what the server has.
pub record Wired : Type 0 where
  pub content : Bytes
  pub sent : List Request
  pub reply : Option Response

abbrev wired : Kernel Wired
wired = record {
  stat = λ path w. (failed 2, w);
  lstat = λ path w. (failed 2, w);
  statvfs = λ path w. (failed 2, w);
  opendir = λ path w. (failed 2, w);
  closedir = λ handle w. w;
  malloc = λ n w. (true, w);
  open_file = λ path flags mode w. (returned 3, w);
  set_lock = λ fd type w. (returned tt, w);
  readlink = λ path n w. (failed 22, w);
  symlink = λ from to w. (failed 13, w);
  pread = λ fd n offset w. (returned (take n (drop offset w.content)), w);
  pwrite = λ fd bytes offset w.
      (returned (length bytes), record w { content = write_at w.content offset bytes });
  ftruncate = λ fd n w. (failed 13, w);
  fallocate = λ fd mode offset n w. (failed 95, w);
  close = λ fd w. (returned tt, w);
  fsync = λ fd w. (returned tt, w);
  mkdir = λ path mode w. (failed 13, w);
  rmdir = λ path w. (failed 13, w);
  rename = λ from to w. (failed 13, w);
  unlink = λ path w. (failed 13, w);
  read = λ fd n w. (failed 9, w);
}

abbrev system : Sockets Wired
system = granting (λ w. (9, w))

abbrev transport : Transport Wired
transport = record {
  in_fdset = λ fd w. true;
  select = λ w. (returned (length w.sent), w);
  receive = λ w. (w.sent, record w { sent = [] });
  reply = λ res w. record w { reply = some res };
}

abbrev wires : Wires wired system transport (pos 9)
wires = record {
  ask = λ req w. record w { sent = req ∷ []; reply = none };
  answer = λ w. w.reply;
  clean = λ w. record w { sent = []; reply = none };
  listens = λ req w. refl;
  ready = λ req w. (0, refl);
  arrives = λ req w. refl;
  taken = λ req w. refl;
  replied = λ res w. refl;
  sent = λ res w. refl;
}

wired-Simulates : Simulates wires.clean wired wired
wired-Simulates = record {
  closedir = λ handle w. refl;
  stat = λ path w. (refl, refl);
  lstat = λ path w. (refl, refl);
  statvfs = λ path w. (refl, refl);
  opendir = λ path w. (refl, refl);
  malloc = λ n w. (refl, refl);
  open_file = λ path flags mode w. (refl, refl);
  set_lock = λ fd type w. (refl, refl);
  readlink = λ path n w. (refl, refl);
  symlink = λ from to w. (refl, refl);
  pread = λ fd n offset w. (refl, refl);
  pwrite = λ fd bytes offset w. (refl, refl);
  ftruncate = λ fd n w. (refl, refl);
  fallocate = λ fd mode offset n w. (refl, refl);
  close = λ fd w. (refl, refl);
  fsync = λ fd w. (refl, refl);
  mkdir = λ path mode w. (refl, refl);
  rmdir = λ path w. (refl, refl);
  rename = λ from to w. (refl, refl);
  unlink = λ path w. (refl, refl);
  read = λ fd n w. (refl, refl);
}

rounds-CarriesAll_example :
    CarriesAll
      (cleaned wired system transport (pos 9) wires)
      wired
      (over_rounds wired system transport (pos 9) wires)
rounds-CarriesAll_example = rounds-CarriesAll wired system transport (pos 9) wires wired-Simulates
