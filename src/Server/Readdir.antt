-- ===== src/Server/Readdir.antt =====
-- libicbinn/server/server.c: `init_rand` and the READDIR handler, with the pathname buffer, the
-- heap blocks of a listing, and the static result that the next call frees.
use icbinn.Common.{
  ℕ, zero, suc, ◌+◌, ◌-◌, ◌*◌, ◌%◌, ◌==◌, ◌≡◌, arith, ℤ, pos, negsuc, Bytes, Bool, true, false,
  none, some, List, [], ◌∷◌, ◌++◌, ◌||◌, codes, length, ltb, leb, same_bytes, if◌then◌else◌,
}
use icbinn.Protocol.{ReaddirArgs, ReaddirRes, Entry, max_path_len, max_name_len, u32_size}
use icbinn.Kernel.{Kernel, Dir, returned, failed, s_isdir}
use icbinn.Server.State.{
  Server, Run, done, exited, fault, ◌>>=◌, get_pathname_len, set_icbinn_prot_type,
}

-- the size of `filepath`
abbrev pub filepath_size : ℕ
filepath_size = max_path_len + max_name_len + 1

-- The size of a `struct icbinn_prot_entry` on a machine with 64-bit pointers.
abbrev pub entry_size : ℕ
entry_size = 24

-- An `int` assigned to an `unsigned int`.
abbrev pub as_unsigned : ℤ → ℕ
as_unsigned (pos n) = n
as_unsigned (negsuc n) = u32_size - 1 - n

-- `dname_len` is unsigned, so the -1 of `get_pathname_len` becomes the largest number.
abbrev pub unsigned_len : Bytes → ℕ
unfolding get_pathname_len
unsigned_len dir = as_unsigned (get_pathname_len dir)

-- The byte at an index, where the index lies within a string.
abbrev pub byte_at : ℕ → Bytes → ℕ
byte_at i [] = 0
byte_at zero (b ∷ bs) = b
byte_at (suc i) (b ∷ bs) = byte_at i bs

-- `strcpy` of the directory into `filepath`, and the separator behind it. The result is the string
-- in `filepath`, whose length is the new `dname_len`.
unfoldable pub directory_prefix : Bytes → Run Bytes
directory_prefix dir =
    let dname_len = unsigned_len dir in
    let last = (dname_len + u32_size - 1) % u32_size in
    if leb filepath_size (length dir) || leb filepath_size last
    then fault
    else if byte_at last dir == b'/'
    then done dir
    else if leb filepath_size ((dname_len + 1) % u32_size)
    then fault
    else done (dir ++ b'/' ∷ [])

-- The variables of the loop: `doffset`, `dcount`, the entries linked so far, whether `dp` is NULL,
-- the number of blocks that `malloc` has given, and the machine.
pub record Scan (W : Type 0) : Type 0 where
  pub doffset : ℕ
  pub dcount : ℕ
  pub entries : List Entry
  pub dp_null : Bool
  pub allocated : ℕ
  pub world : W

-- The three tests on a name before it is looked up.
unfoldable pub skipped : Bytes → Bool
skipped d_name =
    same_bytes d_name (codes ".")
    || same_bytes d_name (codes "..")
    || leb max_name_len (length d_name)

module _ {W : Type 0} (k : Kernel W) where
  -- The end of the loop's body, for an entry that has been found and is to be returned.
  unfoldable pub append_entry : Bytes → ℕ → Scan W → Run (Scan W)
  unfolding set_icbinn_prot_type
  append_entry d_name mode s =
      let (got, w) = k.malloc entry_size s.world in
      if got
      then (let (got_name, w') = k.malloc (length d_name + 1) w in
          if got_name
          then done (record s {
            dcount = s.dcount + 1;
            entries = s.entries ++ record { name = d_name; type = set_icbinn_prot_type mode } ∷ [];
            allocated = s.allocated + 2;
            world = w';
          })
          else exited)
      else exited

  -- `lstat` of the entry, and the test against the offset. `doffset++` wraps.
  unfoldable pub look_up : (prefix : Bytes) (offset : ℕ) → Bytes → Scan W → Run (Scan W)
  look_up prefix offset d_name s =
      let (r, w) = k.lstat (prefix ++ d_name) s.world in
      elim r [
        | failed errno ↦ done (record s { world = w })
        | returned sbuf ↦
            let s' = record s { doffset = (s.doffset + 1) % u32_size; world = w } in
            if ltb s.doffset offset then done s' else append_entry d_name sbuf.mode s'
      ]

  -- The body of the loop, for a name that `readdir` has returned.
  unfoldable pub visit : (prefix : Bytes) (offset : ℕ) → Bytes → Scan W → Run (Scan W)
  visit prefix offset d_name s =
      if skipped d_name
      then done s
      else if leb filepath_size (length prefix + length d_name)
      then fault
      else look_up prefix offset d_name s

  -- The loop: it ends when `count` entries are linked, or when the stream has no more names.
  unfoldable pub readdir_loop :
      (prefix : Bytes) (offset count : ℕ) → List Bytes → Scan W → Run (Scan W)
  readdir_loop prefix offset count [] s =
      done (if ltb s.dcount count then record s { dp_null = true } else s)
  readdir_loop prefix offset count (d_name ∷ names) s =
      let rest = readdir_loop prefix offset count names in
      if ltb s.dcount count
      then visit prefix offset d_name (record s { dp_null = false }) >>= rest
      else done s

  -- From the `strcpy` on: the entries of an open directory stream, which is closed in the end.
  unfoldable pub read_entries : ReaddirArgs → Dir → Server W → Run (ReaddirRes × Server W)
  read_entries argp dirp s = do
    prefix ← directory_prefix argp.dir
    e ← readdir_loop prefix argp.offset argp.count dirp.names (record {
      doffset = 0;
      dcount = 0;
      entries = [];
      dp_null = true;
      allocated = s.allocated;
      world = s.world;
    })
    let res = some (record { entries = e.entries; eof = e.dp_null })
    done (
      res,
      record s { listed = res; allocated = e.allocated; world = k.closedir dirp.handle e.world },
    )

  -- From `opendir` on.
  unfoldable pub list_directory : ReaddirArgs → Server W → Run (ReaddirRes × Server W)
  list_directory argp s =
      let (r, w) = k.opendir argp.dir s.world in
      elim r [
        | failed errno ↦ done (none, record s { world = w })
        | returned dirp ↦ read_entries argp dirp (record s { world = w })
      ]

  -- `xdr_free` of the previous result: a block for each entry and one for its name.
  unfoldable pub free_previous : Server W → Server W
  free_previous s = if s.fresh then record s { fresh = false } else elim s.listed [
    | none ↦ s
    | some reply ↦ record s { freed = s.freed + 2 * length reply.entries }
  ]

  unfoldable pub readdir_1_svc : ReaddirArgs → Server W → Run (ReaddirRes × Server W)
  readdir_1_svc argp s =
      let s' = record (free_previous s) { listed = none } in
      let (r, w) = k.stat argp.dir s'.world in
      elim r [
        | failed errno ↦ done (none, record s' { world = w })
        | returned sbuf ↦
            if s_isdir sbuf.mode
            then list_directory argp (record s' { world = w })
            else done (none, record s' { world = w })
      ]

  -- `init_rand`; a device that cannot be opened is fatal.
  unfoldable pub init_rand : Server W → Run (Server W)
  init_rand s =
      let (r, w) = k.open_file (codes "/dev/random") 0 0 s.world in
      elim r [
        | failed errno ↦ exited
        | returned random ↦
            (let (r', w') = k.open_file (codes "/dev/urandom") 0 0 w in
              elim r' [
                | failed errno ↦ exited
                | returned urandom ↦
                    done (record s { random_fd = pos random; urandom_fd = pos urandom; world = w' })
              ])
      ]

  pub world-free_previous : (s : Server W) → (free_previous s).world ≡ s.world
  unfolding free_previous
  world-free_previous s = ground arith
