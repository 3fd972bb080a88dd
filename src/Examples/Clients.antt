-- ===== src/Examples/Clients.antt =====
-- The command-line client's commands and lines, and the FUSE file system, at inputs of theirs.
use icbinn.Server.Still.{IsStill}
use icbinn.Shell.{Local, Session}
use icbinn.Shell.Commands.{cmd_ls}
use icbinn.Shell.Listing.{lines_of, cmd_ls-lists}
use icbinn.Kernel.{failed}
use icbinn.Examples.{direct_readdir}
use icbinn.Examples.Tests.{content, entries, entries-IsListed}
use icbinn.Common.{
  zero, suc, ℕ, ◌≡◌, refl, pos, Bytes, some, List, [], ◌∷◌, replicate, length-replicate, codes,
  arith,
}
use icbinn.Server.State.{Server, init}
use icbinn.Kernel.{Stat}
use icbinn.Client.Calls.{StatBuf}
use icbinn.Fuse.{icbinnfs_getattr}
use icbinn.Fuse.Attributes.{IsLike, getattr-IsLike}
use icbinn.Shell.Parse.{parse_cmd, overrun}
use icbinn.Shell.Words.{AreWords, spaced, parse_cmd_overrun}
use icbinn.Fuse.{translate_open_flags}
use icbinn.Fuse.Flags.{open_flags-translate_open_flags}
use icbinn.Server.Files.{open_flags}
use icbinn.Shell.Parse.{cmd_tab, find_command}
use icbinn.Shell.Matching.{named, beginning, sole, find_command_lem}
use icbinn.Examples.{machine, direct, direct_stat, a_file}

abbrev start : Server Bytes
start = init content

open_flags-translate_open_flags_example :
    open_flags (translate_open_flags 0o1102) ≡ open_flags 0o1102
open_flags-translate_open_flags_example = open_flags-translate_open_flags 0o1102

find_command_lem_example :
    find_command cmd_tab (codes "rmd")
    ≡ sole (named cmd_tab (codes "rmd")) (beginning cmd_tab (codes "rmd"))
find_command_lem_example = find_command_lem cmd_tab (codes "rmd") (omega arith)

abbrev junk : StatBuf
junk = record { size = 99; type = pos 1 }

getattr-IsLike_example :
    let (rv, stored, s') = icbinnfs_getattr (direct machine) junk (97 ∷ []) start in
    (st : Stat) × (rv ≡ pos 0) × (stored ≡ some st) × IsLike st a_file
getattr-IsLike_example =
    getattr-IsLike machine (direct machine) (λ s. s) (direct_stat machine) junk (97 ∷ []) a_file
      start (omega arith) refl refl

-- "ls" and "a"
abbrev typed : List Bytes
typed = (108 ∷ 115 ∷ []) ∷ (97 ∷ []) ∷ []

abbrev many : (n : ℕ) → List Bytes
many n = replicate n (97 ∷ [])

many-AreWords : (n : ℕ) → AreWords (many n)
many-AreWords zero = tt
many-AreWords (suc n) = (omega arith, (refl, tt), many-AreWords n)

parse_cmd_overrun_example : parse_cmd cmd_tab (spaced (many 32)) ≡ overrun
parse_cmd_overrun_example =
    parse_cmd_overrun cmd_tab (many 32) (many-AreWords 32)
      (omega (arith, length-replicate {A = Bytes} 32 (97 ∷ [])))

machine-IsStill : IsStill machine
machine-IsStill = record {
  stat = λ path w. refl;
  lstat = λ path w. refl;
  opendir = λ path w. refl;
  closedir = λ handle w. refl;
  malloc = λ n w. refl;
}

abbrev no_files : Local Bytes
no_files = record {
  open_file = λ path flags l. (failed 2, l);
  read = λ fd count l. (failed 9, l);
  write = λ fd bytes l. (failed 9, l);
  close = λ fd l. l;
}

abbrev shell : Session (Server Bytes) Bytes
shell = record { conn = start; local = []; printed = [] }

cmd_ls-lists_example :
    (s' : Session (Server Bytes) Bytes) × (cmd_ls
        (direct machine)
        no_files
        3
        (record { name = []; type = pos 0 })
        (47 ∷ [])
        shell
      ≡ some (pos 0, s'))
    × (s'.printed ≡ lines_of entries)
cmd_ls-lists_example =
    cmd_ls-lists machine (direct machine) no_files (λ s. s) (direct_readdir machine) machine-IsStill
      content (47 ∷ []) entries entries-IsListed (omega arith) 3
      (record { name = []; type = pos 0 }) shell refl (omega arith)
