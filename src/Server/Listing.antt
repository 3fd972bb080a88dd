-- ===== src/Server/Listing.antt =====
-- What READDIR answers: a page of the entries that can be seen.
use icbinn.Common.{
  ℕ, ◌<◌, ◌≡◌, refl, Bytes, true, none, some, List, [], length, take, drop, ltb, if◌then◌else◌,
  subst, arith,
}
use native.Mathlib.Nat.{sub-zero, zero-add}
use icbinn.Protocol.{ReaddirArgs, DirList, Entry, u32_size, max_path_len}
use icbinn.Kernel.{Kernel, Stat, Dir, returned, s_isdir}
use icbinn.Server.State.{Server, done}
use icbinn.Server.Overruns.{separated, prefix_fits}
use icbinn.Server.Pages.{OnlyLooks, HasMemory, visible, loop_pages}
use icbinn.Server.Readdir.{
  Scan, read_entries, list_directory, free_previous, readdir_1_svc, world-free_previous,
}

-- The entries that a listing of `dirp` can show, in a machine.
abbrev pub shown : {W : Type 0} → Kernel W → Bytes → Dir → W → List Entry
shown k dir dirp w = visible k (separated dir) w dirp.names

-- `eof` of an answer: no entry was wanted, or the stream ended while entries were wanted.
abbrev pub page : List Entry → (offset count : ℕ) → DirList
page entries offset count = record {
  entries = take count (drop offset entries);
  eof = if ltb 0 count then ltb (length (drop offset entries)) count else true;
}

module _ {W : Type 0} (k : Kernel W) (looks : OnlyLooks k) (memory : HasMemory k) where
  entries_page :
      (argp : ReaddirArgs) (dirp : Dir) (s : Server W)
      → 0 < length argp.dir
      → length argp.dir < max_path_len
      → length dirp.names < u32_size
      → (out : Server W) × (read_entries k argp dirp s
          ≡ done (some (page (shown k argp.dir dirp s.world) argp.offset argp.count), out))
  unfolding read_entries
  entries_page argp dirp s some_name short small =
      let (e, fits) = prefix_fits argp.dir some_name short in
      let start : Scan W = record {
        doffset = 0;
        dcount = 0;
        entries = [];
        dp_null = true;
        allocated = s.allocated;
        world = s.world;
      } in
      let (t, q, p) =
        loop_pages k looks memory (separated argp.dir) fits s.world argp.offset argp.count
          dirp.names start refl (omega arith) in
      (
        record s {
          listed = some (record { entries = t.entries; eof = t.dp_null });
          allocated = t.allocated;
          world = k.closedir dirp.handle t.world;
        },
        rw (e, q, p.added, p.ended) (simp (sub-zero, zero-add)),
      )

  list_page :
      (argp : ReaddirArgs) (s : Server W) (dirp : Dir)
      → 0 < length argp.dir
      → length argp.dir < max_path_len
      → length dirp.names < u32_size
      → (k.opendir argp.dir s.world).0 ≡ returned dirp
      → let w = (k.opendir argp.dir s.world).1 in
        (out : Server W) × (list_directory k argp s
          ≡ done (some (page (shown k argp.dir dirp w) argp.offset argp.count), out))
  unfolding list_directory
  list_page argp s dirp some_name short small o =
      let s' = record s { world = (k.opendir argp.dir s.world).1 } in
      let (out, q) = entries_page argp dirp s' some_name short small in
      (out, rw (o, list_directory) q)

  -- READDIR of a directory that `stat` and `opendir` find, with a path of 1 to 4095 bytes and less
  -- than 2 ^ 32 names, on a machine where `malloc` succeeds and `lstat` changes nothing, is
  -- answered with the page of its entries from `offset` on, `count` of them or as many as there
  -- are, in the order of the stream. The entries are those that `lstat` finds, without "." and
  -- ".." and names that are too long; `eof` says whether the stream ended while entries were
  -- wanted, or none was wanted.
  pub readdir-page :
      (argp : ReaddirArgs) (s : Server W) (sbuf : Stat) (dirp : Dir)
      → 0 < length argp.dir
      → length argp.dir < max_path_len
      → length dirp.names < u32_size
      → (k.stat argp.dir s.world).0 ≡ returned sbuf
      → s_isdir sbuf.mode ≡ true
      → (k.opendir argp.dir (k.stat argp.dir s.world).1).0 ≡ returned dirp
      → let w = (k.opendir argp.dir (k.stat argp.dir s.world).1).1 in
        (out : Server W) × (readdir_1_svc k argp s
          ≡ done (some (page (shown k argp.dir dirp w) argp.offset argp.count), out))
  unfolding readdir_1_svc
  readdir-page argp s sbuf dirp some_name short small e isdir o =
      subst
        (λ v.
          (k.stat argp.dir v).0 ≡ returned sbuf
          → (k.opendir argp.dir (k.stat argp.dir v).1).0 ≡ returned dirp
          → (out : Server W) × (readdir_1_svc k argp s
              ≡ done (
                some (
                    page (shown k argp.dir dirp (k.opendir argp.dir (k.stat argp.dir v).1).1)
                      argp.offset argp.count),
                out,
              )))
        (world-free_previous k s)
        (λ e' o'.
          let s' : Server W = record (free_previous k s) {
            listed = none;
            world = (k.stat argp.dir (free_previous k s).world).1;
          } in
          let (out, q) = list_page argp s' dirp some_name short small o' in
          (out, rw (e', isdir, readdir_1_svc) q))
        e o
