-- ===== src/Fuse/Listing.antt =====
-- READDIR of icbinn-fs.c over a connection to the READDIR and STAT handlers.
use icbinn.Common.{
  ℕ, zero, suc, ◌+◌, ◌≤◌, ◌<◌, ◌≡◌, refl, ap, ◌∙◌, ℤ, pos, negsuc, true, minus_one, is_negative,
  is_nonzero, Bytes, Bool-cases, Option, none, some, List, [], ◌∷◌, length, leb, take, drop, lt→ltb,
  le→ltb-false, inl, inr, if◌then◌else◌, arith,
}
use icbinn.Protocol.{Entry, u32_size, max_path_len}
use icbinn.Kernel.{Kernel, Stat}
use icbinn.Server.State.{Server, init, get_pathname_len}
use icbinn.Server.Files.{stat_1_svc}
use icbinn.Server.Readdir.{readdir_1_svc}
use icbinn.Server.Still.{IsStill}
use icbinn.Client.Stubs.{Stubs}
use icbinn.Client.Calls.{Dirent, StatBuf, dirent, dirents, icbinn_readent, icbinn_stat, stat_code}
use icbinn.Wire.Link.{Carries, CarriesRun}
use icbinn.Wire.Listing.{IsListed}
use icbinn.Wire.Again.{readent-again}
use icbinn.Shell.Listing.{drop-cases}
use icbinn.Fuse.{icbinnfs_getattr, icbinnfs_readdir_loop, file_attributes, stored_or, entry_path}

-- What the STAT handler answers for a path on a machine, as attributes; none where it fails, or
-- where the type is unknown.
abbrev pub attributes_at : {W : Type 0} → Kernel W → StatBuf → W → Bytes → Option Stat
attributes_at k ist w path =
    let (rv, stored) = stat_code (some (stat_1_svc k path (init w)).0) in
    let (ret, st) = file_attributes (stored_or stored ist) in
    if is_negative rv then none else if is_nonzero ret then none else st

nonzero_of_negative : (i : ℤ) → is_negative i ≡ true → is_nonzero i ≡ true
nonzero_of_negative (pos n) e = cc
nonzero_of_negative (negsuc n) e = refl

module _ {W : Type 0} (k : Kernel W) where
  -- The answer of the handler is that of the machine.
  stat-init :
      (path : Bytes) (v : Server W) → (stat_1_svc k path v).0 ≡ (stat_1_svc k path (init v.world)).0
  unfolding stat_1_svc get_pathname_len
  stat-init path v = elim (Bool-cases (leb max_path_len (length path))) [
    | inl e ↦ rw e refl
    | inr e ↦ rw e refl
  ]

  stat-world : IsStill k → (path : Bytes) (v : Server W) → (stat_1_svc k path v).1.world ≡ v.world
  unfolding stat_1_svc get_pathname_len
  stat-world still path v = elim (Bool-cases (leb max_path_len (length path))) [
    | inl e ↦ rw e refl
    | inr e ↦ rw e (still.lstat path v.world)
  ]

module _ {W S : Type 0} (k : Kernel W) (icb : Stubs S) (server : S → Server W)
    (stats : Carries server icb.stat_1 (stat_1_svc k)) (still : IsStill k) where
  -- What the loop hands on of a call of GETATTR, and the machine behind it.
  getattr-attributes :
      (ist : StatBuf) (path : Bytes) (s : S)
      → let (rv, st, s') = icbinnfs_getattr icb ist path s in
        ((if is_nonzero rv then none else st) ≡ attributes_at k ist (server s).world path)
        × ((server s').world ≡ (server s).world)
  unfolding icbinnfs_getattr icbinn_stat
  getattr-attributes ist path s =
      let answered = (stats path s).replied ∙ ap some (stat-init k path (server s)) in
      let left = ap (λ v. v.world) (stats path s).advanced ∙ stat-world k still path (server s) in
      let rv = (stat_code (some (stat_1_svc k path (init (server s).world)).0)).0 in
      elim (Bool-cases (is_negative rv)) [
        | inl e ↦ rw (answered, e, nonzero_of_negative rv e) (refl, left)
        | inr e ↦ rw (answered, e) (refl, left)
      ]

-- What FUSE's buffer holds once it has been given each entry, by its name and attributes.
abbrev pub filled :
    {W F : Type 0}
    → Kernel W
    → (filler : Bytes → Option Stat → F → ℤ × F) → StatBuf
    → W
    → Bytes
    → List Entry
    → F
    → F
filled k filler ist w path [] buf = buf
filled k filler ist w path (e ∷ es) buf =
    let name = (dirent e).name in
    filled k filler ist w path es (filler name (attributes_at k ist w (entry_path path name)) buf).1

module _ {W S F : Type 0} (k : Kernel W) (icb : Stubs S) (server : S → Server W)
    (carries : CarriesRun server icb.readdir_1 (readdir_1_svc k))
    (stats : Carries server icb.stat_1 (stat_1_svc k)) (still : IsStill k) (w : W)
    (filler : Bytes → Option Stat → F → ℤ × F)
    (takes : (name : Bytes) (st : Option Stat) (buf : F) → (filler name st buf).0 ≡ pos 0)
    (ist : StatBuf) (path : Bytes) (entries : List Entry) (d : IsListed k path w entries)
    (few : length entries < u32_size) where
  -- What a run of the loop from entry `i` on comes to.
  abbrev Fills : ℕ → F → Option (ℤ × F × S) → Type 0
  Fills i buf out =
      (s' : S) × (out ≡ some (pos 0, filled k filler ist w path (drop i entries) buf, s'))
      × ((server s').world ≡ w)

  loop-Fills :
      (fuel i : ℕ) (de : Dirent) (buf : F) (s : S)
      → (server s).world ≡ w
      → i ≤ length entries
      → length entries < i + fuel
      → Fills i buf (icbinnfs_readdir_loop icb filler ist path fuel i de buf s)
  unfolding icbinnfs_readdir_loop dirents
  loop-Fills zero i de buf s e h enough = absurd (omega arith)
  loop-Fills (suc fuel) i de buf s e h enough =
      let (ret, found, same) =
        readent-again k icb server carries still path entries w i s d e (omega arith) in
      let s1 = (icbinn_readent icb path i s).2 in
      elim (drop-cases i entries) [
        | inl (over, none_left) ↦
            let past =
              ret
              ∙ ap (λ b. if b then pos 0 else minus_one) (le→ltb-false i (length entries) over) in
            rw none_left (s1, rw (past, icbinnfs_readdir_loop) refl, same)
        | inr (x, below, there) ↦
            let here =
              ret ∙ ap (λ b. if b then pos 0 else minus_one) (lt→ltb i (length entries) below) in
            let got = found ∙ ap (λ l. dirents (take 1 l)) there in
            let (given, stays) =
              getattr-attributes k icb server stats still ist (entry_path path (dirent x).name)
                s1 in
            let at_w =
              given ∙ ap (λ v. attributes_at k ist v (entry_path path (dirent x).name)) same in
            let st = attributes_at k ist w (entry_path path (dirent x).name) in
            let full = takes (dirent x).name st buf in
            let (s', q, v) =
              loop-Fills fuel (suc i) (dirent x) (filler (dirent x).name st buf).1
                (icbinnfs_getattr icb ist (entry_path path (dirent x).name) s1).2 (stays ∙ same)
                (omega arith) (omega arith) in
            rw there (s', rw (here, got, at_w, full, icbinnfs_readdir_loop) q, v)
      ]

  -- Over a connection that carries READDIR and STAT to the server's handlers, on a machine that
  -- the calls of READDIR leave as it is, for a directory that can be listed and has fewer than 2 ^
  -- 32 entries, with a `filler` that takes each entry, and with fuel of more than their number:
  -- the loop of READDIR of the FUSE file system ends, returns 0, has given `filler` each entry
  -- once, in their order, with its name and the attributes that STAT gives for its path, and the
  -- machine is as it was.
  pub readdir-filled :
      (fuel : ℕ) (de : Dirent) (buf : F) (s : S)
      → (server s).world ≡ w
      → length entries < fuel
      → (s' : S) × (icbinnfs_readdir_loop icb filler ist path fuel 0 de buf s
          ≡ some (pos 0, filled k filler ist w path entries buf, s'))
        × ((server s').world ≡ w)
  readdir-filled fuel de buf s e enough = loop-Fills fuel 0 de buf s e (omega arith) (omega arith)
