-- ===== src/Server/Overruns.antt =====
-- The pathname buffer of the READDIR handler: when every access is within it.
use icbinn.Common.{
  ℕ, ◌+◌, ◌≤◌, ◌<◌, ◌≡◌, inl, inr, ap, Bytes, true, false, List, [], ◌∷◌, ◌++◌, length,
  length-append, ltb, ◌-◌, ◌%◌, ◌==◌, if◌then◌else◌, if_both, arith, none,
}
use icbinn.Server.Dispatch.{serve}
use icbinn.Protocol.{Request, ReaddirArgs, max_path_len, u32_size}
use icbinn.Kernel.{Kernel, Sys-cases, Stat, Dir, returned, s_isdir}
use icbinn.Server.State.{Server, done, fault, get_pathname_len}
use icbinn.Server.Outcomes.{NoFault, bind-NoFault}
use icbinn.Server.Readdir.{
  byte_at, directory_prefix, Scan, skipped, append_entry, look_up, visit, readdir_loop,
  read_entries, list_directory, free_previous, readdir_1_svc, world-free_previous,
}

-- The path of a directory with one separator behind it.
abbrev pub separated : Bytes → Bytes
separated dir = if byte_at (length dir - 1) dir == b'/' then dir else dir ++ b'/' ∷ []

-- For a directory that has a name, shorter than `max_path_len`, the buffer takes the path and the
-- separator.
pub prefix_fits :
    (dir : Bytes)
    → 0 < length dir
    → length dir < max_path_len
    → (directory_prefix dir ≡ done (separated dir)) × (length (separated dir) ≤ max_path_len)
unfolding directory_prefix get_pathname_len
prefix_fits dir some_name short =
    let last : (length dir + u32_size - 1) % u32_size ≡ length dir - 1 = omega arith in
    (ground (arith, ap (λ i. byte_at i dir) last), ground (arith, length-append dir (b'/' ∷ [])))

prefix_overruns : (dir : Bytes) → max_path_len ≤ length dir → directory_prefix dir ≡ fault
unfolding directory_prefix get_pathname_len
prefix_overruns dir long = ground arith

module _ {W : Type 0} (k : Kernel W) where
  look_up-NoFault :
      (prefix : Bytes) (offset : ℕ) (d_name : Bytes) (s : Scan W)
      → NoFault (look_up k prefix offset d_name s)
  unfolding look_up append_entry
  look_up-NoFault prefix offset d_name s = ground arith

  visit-NoFault :
      (prefix : Bytes) (offset : ℕ) (d_name : Bytes) (s : Scan W)
      → length prefix ≤ max_path_len
      → NoFault (visit k prefix offset d_name s)
  unfolding visit skipped
  visit-NoFault prefix offset d_name s fits = ground (arith, look_up-NoFault prefix offset d_name s)

  loop-NoFault :
      (prefix : Bytes) (offset count : ℕ) (names : List Bytes) (s : Scan W)
      → length prefix ≤ max_path_len
      → NoFault (readdir_loop k prefix offset count names s)
  unfolding readdir_loop
  loop-NoFault prefix offset count [] s fits = tt
  loop-NoFault prefix offset count (d_name ∷ names) s fits =
      let s' = record s { dp_null = false } in
      if_both NoFault (ltb s.dcount count)
        (bind-NoFault (visit k prefix offset d_name s') (readdir_loop k prefix offset count names)
          (visit-NoFault prefix offset d_name s' fits)
          (λ t _. loop-NoFault prefix offset count names t fits))
        tt

  entries-NoFault :
      (argp : ReaddirArgs) (dirp : Dir) (s : Server W)
      → 0 < length argp.dir
      → length argp.dir < max_path_len
      → NoFault (read_entries k argp dirp s)
  unfolding read_entries
  entries-NoFault argp dirp s some_name short =
      let prefix = separated argp.dir in
      let (e, fits) = prefix_fits argp.dir some_name short in
      rw e (
        bind-NoFault (readdir_loop k prefix argp.offset argp.count dirp.names _) _
          (loop-NoFault prefix argp.offset argp.count dirp.names _ fits) (λ t _. tt))

  list-NoFault :
      (argp : ReaddirArgs) (s : Server W)
      → 0 < length argp.dir
      → length argp.dir < max_path_len
      → NoFault (list_directory k argp s)
  unfolding list_directory
  list-NoFault argp s some_name short = elim (Sys-cases (k.opendir argp.dir s.world).0) [
    | inl (errno, e) ↦ rw (e, list_directory) tt
    | inr (dirp, e) ↦ rw (e, list_directory) (entries-NoFault argp dirp _ some_name short)
  ]

  -- `stat` finds nothing at an empty path (ENOENT), nor at one of `max_path_len` bytes or more
  -- (ENAMETOOLONG).
  abbrev pub ChecksPaths : Type 0
  ChecksPaths =
      (path : Bytes) (w : W) (sbuf : Stat)
      → (k.stat path w).0 ≡ returned sbuf
      → (0 < length path) × (length path < max_path_len)

  -- On a machine whose `stat` refuses paths that are empty or too long, READDIR stays within its
  -- buffer, whatever it is asked and in whatever state.
  pub readdir-NoFault :
      ChecksPaths → (argp : ReaddirArgs) (s : Server W) → NoFault (readdir_1_svc k argp s)
  unfolding readdir_1_svc
  readdir-NoFault checks argp s =
      let s' = record (free_previous k s) { listed = none } in
      elim (Sys-cases (k.stat argp.dir s'.world).0) [
        | inl (errno, e) ↦ rw (e, readdir_1_svc) tt
        | inr (sbuf, e) ↦
            let (some_name, short) = checks argp.dir s'.world sbuf e in
            rw (e, readdir_1_svc)
              (if_both NoFault (s_isdir sbuf.mode) (list-NoFault argp _ some_name short) tt)
      ]

  list_overruns :
      (argp : ReaddirArgs) (s : Server W) (dirp : Dir)
      → max_path_len ≤ length argp.dir
      → (k.opendir argp.dir s.world).0 ≡ returned dirp
      → list_directory k argp s ≡ fault
  unfolding list_directory read_entries
  list_overruns argp s dirp long o =
      rw (o, list_directory) (rw (prefix_overruns argp.dir long, read_entries))

  -- For a directory of `max_path_len` bytes or more that the machine's `stat` and `opendir` find,
  -- the READDIR handler accesses its path buffer out of bounds: its own test `dname_len < 0` stops
  -- no path.
  pub readdir_overrun :
      (argp : ReaddirArgs) (s : Server W) (sbuf : Stat) (dirp : Dir)
      → max_path_len ≤ length argp.dir
      → (k.stat argp.dir s.world).0 ≡ returned sbuf
      → s_isdir sbuf.mode ≡ true
      → (k.opendir argp.dir (k.stat argp.dir s.world).1).0 ≡ returned dirp
      → readdir_1_svc k argp s ≡ fault
  unfolding readdir_1_svc
  readdir_overrun argp s sbuf dirp long e isdir o =
      let w : (free_previous k s).world ≡ s.world = world-free_previous k s in
      rw (w, e, isdir, readdir_1_svc) (list_overruns argp _ dirp long (rw w o))

  -- On a machine whose `stat` refuses paths that are empty or have `max_path_len` bytes or more,
  -- no request, in no state of the server, makes a handler access the path buffer of READDIR
  -- outside its bounds.
  pub serve-NoFault : ChecksPaths → (req : Request) (s : Server W) → NoFault (serve k req s)
  unfolding serve
  serve-NoFault checks (Request.readdir argp) s =
      bind-NoFault (readdir_1_svc k argp s) _ (readdir-NoFault checks argp s) (λ r _. tt)
  serve-NoFault checks _ s = tt
