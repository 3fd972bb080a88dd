-- ===== src/Examples/Suites.antt =====
-- The tests of libicbinn/test/test.c and what was added for them, at inputs of theirs.
use icbinn.Common.{
  ◌≡◌, refl, pos, negsuc, Bytes, none, some, List, [], ◌∷◌, same_bytes, if◌then◌else◌, arith,
}
use icbinn.Protocol.{Entry, file, directory, error}
use icbinn.Kernel.{Kernel, Dir, returned}
use icbinn.Server.State.{Server, init, set_icbinn_prot_type}
use icbinn.Server.Readdir.{skipped}
use icbinn.Server.Pages.{visible, found}
use icbinn.Server.Still.{IsStill}
use icbinn.Client.Stubs.{Stubs}
use icbinn.Client.Transfer.{Filling, icbinn_pread}
use icbinn.Client.Counts.{pread_overcount}
use icbinn.Wire.Listing.{IsListed}
use icbinn.Suite.{test_dir, inside, name_dir1, name_file1, name_file2, test_fileio, test_readdir}
use icbinn.Suite.Listing.{Judged, test_readdir-Judged}
use icbinn.Kernel.Process.{Proc}
use icbinn.Suite.Program.{Around, Opt, in_domain, with_port}
use icbinn.Suite.Contents.{fish_and_soup, test_fileio-passes}
use icbinn.Examples.{
  machine, direct, a_directory, a_file, direct_open, direct_pread, direct_pwrite, direct_close,
  direct_readdir, machine-WritesAs, machine-ReadsAs,
}
use icbinn.Examples.Sorting.{sorted, sorted-Sorts}

-- four bytes of anything
abbrev junk : Bytes
junk = 1 ∷ 2 ∷ 3 ∷ 4 ∷ []

abbrev fresh : Server Bytes
fresh = init []

test_fileio-passes_example :
    let (ret, s') = test_fileio (direct machine) junk fresh in
    (ret ≡ pos 0) × (s'.world ≡ fish_and_soup)
test_fileio-passes_example =
    test_fileio-passes machine (direct machine) (λ s. s) (direct_open machine)
      (direct_pread machine) (direct_pwrite machine) (direct_close machine) (λ w. w) junk 3 fresh
      refl refl machine-WritesAs machine-ReadsAs (λ w. refl) refl

-- The directory of the tests, whose names come in an order of their own.
abbrev pub test_stream : Dir
test_stream = record { handle = 5; names = name_file2 ∷ (46 ∷ []) ∷ name_dir1 ∷ name_file1 ∷ [] }

abbrev pub test_machine : Kernel Bytes
test_machine = record machine {
  stat = λ path w. (returned a_directory, w);
  lstat =
      λ path w. (returned (if same_bytes path (inside name_dir1) then a_directory else a_file), w);
  opendir = λ path w. (returned test_stream, w);
}

abbrev pub test_entries : List Entry
test_entries =
    record { name = name_file2; type = file }
    ∷ record { name = name_dir1; type = directory }
    ∷ record { name = name_file1; type = file }
    ∷ []

pub test_machine-IsStill : IsStill test_machine
test_machine-IsStill = record {
  stat = λ path w. refl;
  lstat = λ path w. refl;
  opendir = λ path w. refl;
  closedir = λ handle w. refl;
  malloc = λ n w. refl;
}

pub test_entries-IsListed : IsListed test_machine test_dir [] test_entries
unfolding visible skipped found set_icbinn_prot_type
test_entries-IsListed = record {
  looks = λ path w. refl;
  memory = λ n w. refl;
  some_name = omega arith;
  short_name = omega arith;
  sbuf = a_directory;
  dirp = test_stream;
  small = omega arith;
  finds = refl;
  isdir = refl;
  opens = refl;
  shows = refl;
}

test_readdir-Judged_example :
    Judged (λ s. s) [] test_entries (test_readdir (direct test_machine) sorted fresh)
test_readdir-Judged_example =
    test_readdir-Judged test_machine (direct test_machine) (λ s. s) (direct_readdir test_machine)
      test_machine-IsStill sorted-Sorts test_entries fresh test_entries-IsListed

-- A server that answers PREAD with the error number -100.
abbrev hostile : Stubs (Server Bytes)
hostile = record (direct machine) { pread_1 = λ a s. (some (error (negsuc 99)), s) }

abbrev to_fill : Filling (Server Bytes)
to_fill = record { buf = junk; conn = fresh }

pread_overcount_example :
    let (ret, t) = icbinn_pread hostile (pos 3) 4 0 to_fill in (ret ≡ pos 100) × (t.buf ≡ junk)
pread_overcount_example =
    pread_overcount hostile (pos 3) 4 0 99 to_fill (omega arith) (omega arith) (λ a. refl)

-- A server that refuses to list.
abbrev unlisted : Stubs (Server Bytes)
unlisted = record (direct machine) { readdir_1 = λ a s. (none, s) }

abbrev around : Around
around = record { qsort = sorted; buf = junk; stat_buf = record { size = 0; type = pos 3 } }

-- "-d 5 -p 4000"
abbrev test_opts : List Opt
test_opts = in_domain (pos 5) ∷ with_port (pos 4000) ∷ []

abbrev nothing_open : Proc Bytes
nothing_open = record { world = []; fds = [] }
