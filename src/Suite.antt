-- ===== src/Suite.antt =====
-- libicbinn/test/test.c: the tests that a program makes of a server. A test takes the state of the
-- connection and gives its C result with the new state. What an uninitialised array or structure
-- holds is an argument.
pub mod Program
pub mod Order
pub mod Listing
pub mod Contents
pub mod Bounds
use Prim.Native.Nat.{bit_or}
use icbinn.Common.{
  ℕ, ◌-◌, ℤ, pos, minus_one, negsuc, is_negative, is_number, is_nonzero, Bytes, Bool, true, false,
  not, ◌||◌, Option, none, some, List, [], ◌∷◌, ◌++◌, length, replicate, codes, ltb, ◌==◌,
  same_bytes, if◌then◌else◌,
}
use icbinn.Server.State.{Run, done, fault, ◌>>=◌}
use icbinn.Server.Files.{rdwr, creat, trunc}
use icbinn.Client.Stubs.{Stubs}
use icbinn.Client.Calls.{
  StatBuf, Dirent, type_file, type_directory, icbinn_null, icbinn_open, icbinn_lock, icbinn_close,
  icbinn_ftruncate, icbinn_mkdir, icbinn_rmdir, icbinn_unlink, icbinn_rename, icbinn_stat,
  icbinn_readent,
}
use icbinn.Client.Transfer.{Filling, icbinn_pread, icbinn_pwrite, icbinn_rand}

-- The names that the tests use.
abbrev pub test_dir : Bytes
test_dir = codes "icbinntest"

abbrev pub inside : Bytes → Bytes
inside name = test_dir ++ 47 ∷ name

abbrev pub name_dir1 : Bytes
name_dir1 = codes "dir1"

abbrev pub name_file1 : Bytes
name_file1 = codes "file1"

abbrev pub name_file2 : Bytes
name_file2 = codes "file2"

abbrev pub fish : Bytes
fish = codes "fish"

abbrev pub soup : Bytes
soup = codes "soup"

-- ICBINN_RANDOM and ICBINN_URANDOM; ICBINN_LTYPE_RDLCK, _WRLCK and _UNLCK
abbrev pub from_random : ℤ
from_random = pos 0

abbrev pub from_urandom : ℤ
from_urandom = pos 1

abbrev read_lock : ℤ
read_lock = pos 0

abbrev write_lock : ℤ
write_lock = pos 1

abbrev no_lock : ℤ
no_lock = pos 2

-- ICBINN_RDWR | ICBINN_CREAT | ICBINN_TRUNC
abbrev pub rewrite_mode : ℕ
rewrite_mode = bit_or (bit_or rdwr creat) trunc

-- The size that the test of `icbinn_ftruncate` sets.
abbrev pub long_size : ℕ
long_size = 1234567890

abbrev pub same_int : ℤ → ℤ → Bool
same_int (pos m) (pos n) = m == n
same_int (negsuc m) (negsuc n) = m == n
same_int (pos m) (negsuc n) = false
same_int (negsuc m) (pos n) = false

-- A structure that a call may have filled.
abbrev stored_or : StatBuf → Option StatBuf → StatBuf
stored_or old none = old
stored_or old (some new) = new

-- `strcmp`, of which only the sign is known: below 0, 0, or above.
unfoldable pub strcmp : Bytes → Bytes → ℤ
strcmp [] [] = pos 0
strcmp [] (y ∷ ys) = minus_one
strcmp (x ∷ xs) [] = pos 1
strcmp (x ∷ xs) (y ∷ ys) = if x == y then strcmp xs ys else if ltb x y then minus_one else pos 1

unfoldable pub compare : Dirent → Dirent → ℤ
unfolding strcmp
compare a b = strcmp a.name b.name

-- The early returns: `if (call) return -1;`, `if (!call) return -1;`, and that of a negative
-- descriptor.
module _ {S : Type 0} where
  abbrev pub failure : S → ℤ × S
  failure s = (minus_one, s)

  abbrev pub passed : S → ℤ × S
  passed s = (pos 0, s)

  abbrev pub succeeds : ℤ × S → (S → ℤ × S) → ℤ × S
  succeeds (ret, s) rest = if is_nonzero ret then failure s else rest s

  abbrev pub fails : ℤ × S → (S → ℤ × S) → ℤ × S
  fails (ret, s) rest = if is_nonzero ret then rest s else failure s

  abbrev pub opens : ℤ × S → (ℤ → S → ℤ × S) → ℤ × S
  opens (fd, s) rest = if is_negative fd then failure s else rest fd s

  -- `!= 4` after a write, and after a read
  abbrev pub writes : ℕ → ℤ × S → (S → ℤ × S) → ℤ × S
  writes n (ret, s) rest = if is_number ret n then rest s else failure s

  abbrev pub reads : ℕ → ℤ × Filling S → (Filling S → ℤ × S) → ℤ × S
  reads n (ret, t) rest = if is_number ret n then rest t else failure t.conn

  -- `memcmp` of the whole buffer
  abbrev pub holding : Bytes → (Filling S → ℤ × S) → Filling S → ℤ × S
  holding bytes rest t = if same_bytes t.buf bytes then rest t else failure t.conn

-- `n < 0 || n > 4`
abbrev out_of_range : ℤ → Bool
out_of_range (pos n) = ltb 4 n
out_of_range (negsuc n) = true

-- `buf.type` and `buf.size`
abbrev is_file : (size : ℕ) → StatBuf → Bool
is_file size buf = if same_int buf.type type_file then buf.size == size else false

-- An element of the sorted array against what it has to be.
unfoldable pub differs : Bytes → (type : ℤ) → Dirent → Bool
unfolding strcmp
differs name type d = is_nonzero (strcmp d.name name) || not (same_int d.type type)

-- The array has three elements here.
unfoldable pub as_made : List Dirent → Bool
unfolding differs
as_made [] = false
as_made (a ∷ []) = false
as_made (a ∷ b ∷ []) = false
as_made (a ∷ b ∷ c ∷ _) =
    if differs name_dir1 type_directory a
    then false
    else if differs name_file1 type_file b
    then false
    else not (differs name_file2 type_file c)

module _ {S : Type 0} (icb : Stubs S) where
  unfoldable pub test_null : S → ℤ × S
  test_null = icbinn_null icb

  -- The results of the calls that remove are not looked at.
  abbrev remove_dirs : List Bytes → S → S
  remove_dirs [] s = s
  remove_dirs (path ∷ paths) s = remove_dirs paths (icbinn_rmdir icb path s).1

  abbrev remove_files : List Bytes → S → S
  remove_files [] s = s
  remove_files (path ∷ paths) s = remove_files paths (icbinn_unlink icb path s).1

  abbrev pub cleared : S → S
  cleared s =
      let s1 =
        remove_dirs
          (inside (codes "dir1")
            ∷ inside (codes "dir2")
            ∷ inside (codes "dir3")
            ∷ inside (codes "dir4")
            ∷ [])
          s in
      let s2 =
        remove_files
          (inside (codes "file1")
            ∷ inside (codes "file2")
            ∷ inside (codes "file3")
            ∷ inside (codes "file4")
            ∷ [])
          s1 in
      (icbinn_rmdir icb test_dir s2).1

  unfoldable pub test_cleanup : S → ℤ × S
  test_cleanup s =
      let (ret, _, s') = icbinn_stat icb (some test_dir) true (cleared s) in
      fails (ret, s') λ s. succeeds (icbinn_mkdir icb test_dir s) passed

  unfoldable pub test_mkdir : S → ℤ × S
  test_mkdir s =
      succeeds (icbinn_mkdir icb (inside name_dir1) s)
        λ s. fails (icbinn_mkdir icb (inside name_dir1) s) passed

  unfoldable pub test_rmdir : S → ℤ × S
  test_rmdir s =
      succeeds (icbinn_rmdir icb (inside name_dir1) s)
        λ s. fails (icbinn_rmdir icb (inside name_dir1) s) passed

  unfoldable pub test_renamedir : S → ℤ × S
  test_renamedir s =
      let dir2 = inside (codes "dir2") in
      succeeds (icbinn_mkdir icb (inside name_dir1) s) λ s.
        succeeds (icbinn_rename icb (inside name_dir1) dir2 s) λ s.
          fails (icbinn_rename icb (inside name_dir1) dir2 s)
            λ s. succeeds (icbinn_rmdir icb dir2 s) passed

  -- The test from its last read on, and so backwards.
  abbrev pub read_end : (fd : ℤ) → Filling S → ℤ × S
  read_end fd t = reads 0 (icbinn_pread icb fd 4 1028 t) λ t. passed (icbinn_close icb fd t.conn).1

  abbrev pub read_soup : (fd : ℤ) → Filling S → ℤ × S
  read_soup fd t = reads 4 (icbinn_pread icb fd 4 1024 t) (holding soup (read_end fd))

  abbrev pub read_gap : (fd : ℤ) → Filling S → ℤ × S
  read_gap fd t = reads 4 (icbinn_pread icb fd 4 4 t) (holding (replicate 4 0) (read_soup fd))

  abbrev pub read_fish : (fd : ℤ) → Filling S → ℤ × S
  read_fish fd t = reads 4 (icbinn_pread icb fd 4 0 t) (holding fish (read_gap fd))

  abbrev pub write_soup : (buf : Bytes) (fd : ℤ) → S → ℤ × S
  write_soup buf fd s =
      writes 4 (icbinn_pwrite icb fd soup 4 1024 s)
        λ s. read_fish fd (record { buf = buf; conn = s })

  abbrev pub write_fish : (buf : Bytes) (fd : ℤ) → S → ℤ × S
  write_fish buf fd s = writes 4 (icbinn_pwrite icb fd fish 4 0 s) (write_soup buf fd)

  unfoldable pub test_fileio : (buf : Bytes) → S → ℤ × S
  test_fileio buf s = opens (icbinn_open icb (inside name_file1) rewrite_mode s) (write_fish buf)

  unfoldable pub test_renamefile : S → ℤ × S
  test_renamefile s =
      succeeds (icbinn_rename icb (inside name_file1) (inside name_file2) s)
        λ s. fails (icbinn_rename icb (inside name_file1) (inside name_file2) s) passed

  unfoldable pub test_unlink : S → ℤ × S
  test_unlink s =
      succeeds (icbinn_unlink icb (inside name_file2) s)
        λ s. fails (icbinn_unlink icb (inside name_file2) s) passed

  unfoldable pub test_ftruncate : S → ℤ × S
  test_ftruncate s =
      opens (icbinn_open icb (inside name_file2) rewrite_mode s)
        λ fd s. succeeds (icbinn_ftruncate icb fd long_size s) λ s. passed (icbinn_close icb fd s).1

  -- `icbinn_stat` of a path, and what `buf` holds then.
  abbrev examines : Bytes → (StatBuf → Bool) → (buf : StatBuf) → S → (StatBuf → S → ℤ × S) → ℤ × S
  examines path fits buf s rest =
      let (ret, stored, s') = icbinn_stat icb (some path) true s in
      let buf' = stored_or buf stored in
      if is_nonzero ret then failure s' else if fits buf' then rest buf' s' else failure s'

  unfoldable pub test_stat : (buf : StatBuf) → S → ℤ × S
  test_stat buf s = examines (inside name_file1) (is_file 1028) buf s λ buf s.
      examines (inside name_file2) (is_file long_size) buf s λ buf s.
        examines (inside name_dir1) (λ buf. same_int buf.type type_directory) buf s λ _ s. passed s

  unfoldable pub test_lock : S → ℤ × S
  test_lock s = opens (icbinn_open icb (inside name_file2) rdwr s) λ fd s.
      succeeds (icbinn_lock icb fd read_lock s) λ s. succeeds (icbinn_lock icb fd write_lock s) λ s.
        succeeds (icbinn_lock icb fd no_lock s) λ s. succeeds (icbinn_lock icb fd write_lock s) λ s.
          succeeds (icbinn_lock icb fd read_lock s)
            λ s. succeeds (icbinn_lock icb fd no_lock s) λ s. passed (icbinn_close icb fd s).1

  unfoldable pub test_rand : (buf : Bytes) → S → ℤ × S
  test_rand buf s =
      let (n, t) = icbinn_rand icb from_random 4 (record { buf = buf; conn = s }) in
      let (n', t') = icbinn_rand icb from_urandom 4 t in
      if out_of_range n
      then failure t.conn
      else if out_of_range n'
      then failure t'.conn
      else passed t'.conn

  -- `icbinn_readent` into a place that has `room` elements of the array behind it. More entries
  -- than that are stored past the end.
  abbrev pub read_entry : (room offset : ℕ) → (ℤ → List Dirent → S → Run (ℤ × S)) → S → Run (ℤ × S)
  read_entry room offset rest s =
      let (ret, stored, s') = icbinn_readent icb test_dir offset s in
      if ltb room (length stored) then fault else rest ret stored s'

  abbrev pub finds_entry : (room offset : ℕ) → (List Dirent → S → Run (ℤ × S)) → S → Run (ℤ × S)
  finds_entry room offset rest =
      read_entry room offset
        λ ret stored s. if is_nonzero ret then done (failure s) else rest stored s

  -- `qsort` is a parameter. A call that returns 0 has stored one entry.
  module _ (qsort : (Dirent → Dirent → ℤ) → List Dirent → List Dirent) where
    -- From the fourth call on, and from the third and the second.
    abbrev pub from_last : List Dirent → S → Run (ℤ × S)
    from_last entries = read_entry 1 3 λ ret _ s.
        if is_nonzero ret
        then (if as_made (qsort compare entries) then done (passed s) else done (failure s))
        else done (failure s)

    abbrev pub from_third : List Dirent → S → Run (ℤ × S)
    from_third entries = finds_entry 2 2 λ third. from_last (entries ++ third)

    abbrev pub from_second : List Dirent → S → Run (ℤ × S)
    from_second entries = finds_entry 3 1 λ second. from_third (entries ++ second)

    unfoldable pub test_readdir : S → Run (ℤ × S)
    unfolding compare as_made
    test_readdir = finds_entry 4 0 from_second
