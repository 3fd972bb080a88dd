-- ===== src/Wire/Listing.antt =====
-- `icbinn_readdir` and `icbinn_readent` over a connection to the READDIR handler.
use icbinn.Common.{
  ℕ, suc, ◌-◌, ◌%◌, ◌≤◌, ◌<◌, ◌≡◌, refl, ap, pos, minus_one, is_number, Bytes, true, some, List, [],
  ◌∷◌, length, take, drop, length-take, length-drop, ltb, if◌then◌else◌, arith, min, sym,
}
use icbinn.Protocol.{ReaddirArgs, Entry, max_path_len, u32_size}
use icbinn.Kernel.{Kernel, Stat, Dir, returned, s_isdir}
use icbinn.Server.State.{Server}
use icbinn.Server.Readdir.{readdir_1_svc}
use icbinn.Server.Pages.{OnlyLooks, HasMemory}
use icbinn.Server.Listing.{shown, page, readdir-page}
use icbinn.Client.Stubs.{Stubs}
use icbinn.Client.Calls.{dirents, readdir_code, icbinn_readdir, icbinn_readent}
use icbinn.Wire.Link.{CarriesRun}

length-dirents : (es : List Entry) → length (dirents es) ≡ length es
unfolding dirents
length-dirents [] = refl
length-dirents (e ∷ es) = ap suc (length-dirents es)

-- A directory that the server can list: what the system calls of READDIR find there. `entries` are
-- the entries that it shows.
pub record IsListed {W : Type 0} (k : Kernel W) (dir : Bytes) (w : W) (entries : List Entry)
    : Type 0 where
  pub looks : OnlyLooks k
  pub memory : HasMemory k
  pub some_name : 0 < length dir
  pub short_name : length dir < max_path_len
  pub sbuf : Stat
  pub dirp : Dir
  pub small : length dirp.names < u32_size
  pub finds : (k.stat dir w).0 ≡ returned sbuf
  pub isdir : s_isdir sbuf.mode ≡ true
  pub opens : (k.opendir dir (k.stat dir w).1).0 ≡ returned dirp
  pub shows : entries ≡ shown k dir dirp (k.opendir dir (k.stat dir w).1).1

-- What `icbinn_readdir` makes of a page that the server has cut from its entries.
readdir_code-page :
    (es : List Entry) (offset count : ℕ)
    → let (n, buf) = readdir_code (some (some (page es offset count))) in
      (n ≡ pos (min count (length es - offset)))
      × (buf ≡ dirents (take count (drop offset es)))
      × (length buf ≤ count)
unfolding readdir_code
readdir_code-page es offset count =
    let counted : length (dirents (take count (drop offset es))) ≡ min count (length es - offset) =
      rw
        (
          length-dirents (take count (drop offset es)),
          length-take count (drop offset es),
          length-drop offset es,
        )
        refl in
    (ap pos counted, refl, omega (arith, counted))

one_or_none :
    (offset count : ℕ)
    → (if is_number (pos (min 1 (count - offset))) 1 then pos 0 else minus_one)
      ≡ (if ltb offset count then pos 0 else minus_one)
one_or_none offset count = ground arith

module _ {W S : Type 0} (k : Kernel W) (icb : Stubs S) (server : S → Server W)
    (carries : CarriesRun server icb.readdir_1 (readdir_1_svc k)) where
  -- Over a connection that carries READDIR to the server's handler, for a directory that can be
  -- listed and an offset and a count below 2 ^ 32, `icbinn_readdir` stores the entries from
  -- `offset` on, `count` of them or as many as there are, and returns their number. So a caller's
  -- array of `count` entries is large enough.
  pub readdir-entries :
      (dir : Bytes) (entries : List Entry) (offset count : ℕ) (s : S)
      → IsListed k dir (server s).world entries
      → offset < u32_size
      → count < u32_size
      → let (n, buf, s') = icbinn_readdir icb dir offset count s in
        (n ≡ pos (min count (length entries - offset)))
        × (buf ≡ dirents (take count (drop offset entries)))
        × (length buf ≤ count)
  unfolding icbinn_readdir
  readdir-entries dir entries offset count s d low few =
      let o : offset % u32_size ≡ offset = omega arith in
      let c : count % u32_size ≡ count = omega arith in
      let argp : ReaddirArgs = record {
        dir = dir;
        offset = offset % u32_size;
        count = count % u32_size;
      } in
      let (v, q) =
        readdir-page k d.looks d.memory argp (server s) d.sbuf d.dirp d.some_name d.short_name
          d.small d.finds d.isdir d.opens in
      let (replied, _) = carries argp s _ v q in
      rw (replied, o, c, sym d.shows) (readdir_code-page entries offset count)

  -- Over a connection that carries READDIR to the server's handler, for a directory that can be
  -- listed and an offset below 2 ^ 32, `icbinn_readent` returns 0 and stores the entry at `offset`
  -- if there is one, and otherwise returns -1 and stores nothing.
  pub readent-entry :
      (dir : Bytes) (entries : List Entry) (offset : ℕ) (s : S)
      → IsListed k dir (server s).world entries
      → offset < u32_size
      → let (ret, buf, s') = icbinn_readent icb dir offset s in
        (ret ≡ (if ltb offset (length entries) then pos 0 else minus_one))
        × (buf ≡ dirents (take 1 (drop offset entries)))
  unfolding icbinn_readent
  readent-entry dir entries offset s d low =
      let (n, b, _) = readdir-entries dir entries offset 1 s d low (omega arith) in
      (rw n (one_or_none offset (length entries)), b)
