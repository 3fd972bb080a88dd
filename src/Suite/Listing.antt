-- ===== src/Suite/Listing.antt =====
-- libicbinn/test/test.c, `test_readdir`, over a connection to the READDIR handler.
use mathlib.Core.List as Lists
use mathlib.Core.List.{Perm, Pairwise, Pairwise-singleton, forall_mem-cons, not-mem-nil}
use mathlib.Core.List.Pairwise
use mathlib.Core.List.Perm
use icbinn.Common.{
  ℕ, ◌<◌, ◌≡◌, ◌⊎◌, inl, inr, refl, ◌∙◌, subst, ℤ, pos, minus_one, is_nonzero, Bytes, true, false,
  List, [], ◌∷◌, length, take, drop, lt→ltb, Bool-cases, arith,
}
use icbinn.Protocol.{Entry}
use icbinn.Kernel.{Kernel}
use icbinn.Server.State.{Server, Run, done}
use icbinn.Server.Readdir.{readdir_1_svc}
use icbinn.Server.Still.{IsStill}
use icbinn.Client.Stubs.{Stubs}
use icbinn.Client.Calls.{Dirent, type_file, type_directory, dirent, dirents, icbinn_readent}
use icbinn.Wire.Link.{CarriesRun}
use icbinn.Wire.Listing.{IsListed}
use icbinn.Wire.Again.{readent-again}
use icbinn.Suite.{
  test_dir, name_dir1, name_file1, name_file2, strcmp, compare, differs, as_made, test_readdir,
  same_int, from_last, from_third, from_second,
}
use icbinn.Suite.Order.{Sorts, Below, strcmp_zero, arranged_eq}

-- The entries that the tests have made when `test_readdir` runs.
abbrev pub made : List Dirent
made =
    record { name = name_dir1; type = type_directory }
    ∷ record { name = name_file1; type = type_file }
    ∷ record { name = name_file2; type = type_file }
    ∷ []

same_int_eq : (a b : ℤ) → same_int a b ≡ true → a ≡ b
same_int_eq a b h = ground arith

differs_eq :
    (name : Bytes) (type : ℤ) (d : Dirent)
    → differs name type d ≡ false
    → d ≡ record { name = name; type = type }
unfolding differs
differs_eq name type d h = elim (Bool-cases (is_nonzero (strcmp d.name name))) [
  | inl e ↦ cc (rw e at h)
  | inr e ↦
      let named : d.name ≡ name = strcmp_zero d.name name e in
      let typed : d.type ≡ type = same_int_eq d.type type (ground arith) in cc
]

made_eq : (l : List Dirent) → Lists.length l ≡ Lists.length made → as_made l ≡ true → l ≡ made
unfolding as_made
made_eq [] n h = cc
made_eq (a ∷ []) n h = cc
made_eq (a ∷ b ∷ []) n h = cc
made_eq (a ∷ b ∷ c ∷ []) n h = ground (
  arith,
  differs_eq name_dir1 type_directory a,
  differs_eq name_file1 type_file b,
  differs_eq name_file2 type_file c,
)
made_eq (a ∷ b ∷ c ∷ d ∷ l) n h = cc

accepts_made : as_made made ≡ true
unfolding as_made
accepts_made = refl

Below-IsProp : (a b : Dirent) → IsProp (Below a b)
Below-IsProp a b = hlevel

made-Pairwise : Pairwise Below made
unfolding compare strcmp
made-Pairwise =
    let dir1 : Dirent = record { name = name_dir1; type = type_directory } in
    let file1 : Dirent = record { name = name_file1; type = type_file } in
    Pairwise.cons
      ((forall_mem-cons (Below-IsProp dir1)).1
        (refl, (forall_mem-cons (Below-IsProp dir1)).1 (refl, λ d m. absurd (not-mem-nil m))))
      (Pairwise.cons
        ((forall_mem-cons (Below-IsProp file1)).1 (refl, λ d m. absurd (not-mem-nil m)))
        (Pairwise-singleton _ _))

module _ {qsort : (Dirent → Dirent → ℤ) → List Dirent → List Dirent} (sorts : Sorts qsort) where
  -- The array is accepted once it is sorted just if it is an arrangement of what was made.
  accepted :
      (l : List Dirent)
      → Lists.length l ≡ Lists.length made
      → ((as_made (qsort compare l) ≡ true) × Perm l made)
        ⊎ ((as_made (qsort compare l) ≡ false) × (¬ Perm l made))
  accepted l three =
      let same = sorts.permutes l in
      elim (Bool-cases (as_made (qsort compare l))) [
        | inr e ↦ inr (
          e,
          λ p.
              let q = arranged_eq _ _ (sorts.ascends l) made-Pairwise (Perm.trans same p) in
              cc (rw q at e, accepts_made),
        )
        | inl e ↦
            inl (
              e,
              subst (λ x. Perm l x) (made_eq _ (Perm.length-eq same ∙ three) e) (Perm.symm same),
            )
      ]

-- What `test_readdir` says of a directory with these entries, and that the machine is as it was.
abbrev pub Judged : {W S : Type 0} → (S → Server W) → W → List Entry → Run (ℤ × S) → Type 0
Judged {S = S} server w entries m =
    (out : ℤ × S) × (m ≡ done out)
    × ((server out.1).world ≡ w)
    × (((out.0 ≡ pos 0) × Perm (dirents entries) made)
        ⊎ ((out.0 ≡ minus_one) × (¬ Perm (dirents entries) made)))

module _ {W S : Type 0} (k : Kernel W) (icb : Stubs S) (server : S → Server W)
    (carries : CarriesRun server icb.readdir_1 (readdir_1_svc k)) (still : IsStill k)
    {qsort : (Dirent → Dirent → ℤ) → List Dirent → List Dirent} (sorts : Sorts qsort) where
  -- A call at an offset that has an entry.
  there :
      (entries : List Entry) (offset : ℕ) (w : W) (s : S)
      → IsListed k test_dir w entries
      → (server s).world ≡ w
      → offset < length entries
      → offset < 4
      → let (ret, buf, s') = icbinn_readent icb test_dir offset s in
        (ret ≡ pos 0) × (buf ≡ dirents (take 1 (drop offset entries))) × ((server s').world ≡ w)
  there entries offset w s d e inside few =
      let (r, b, w') =
        readent-again k icb server carries still test_dir entries w offset s d e (omega arith) in
      (r ∙ rw (lt→ltb offset (length entries) inside) refl, b, w')

  -- Each part of the test, from a state in which the entries before it have been read.
  last_Judged :
      (a b c : Entry) (es : List Entry) (w : W) (s : S)
      → IsListed k test_dir w (a ∷ b ∷ c ∷ es)
      → (server s).world ≡ w
      → Judged server w
          (a ∷ b ∷ c ∷ es)
          (from_last icb qsort (dirent a ∷ dirent b ∷ dirent c ∷ []) s)
  unfolding dirents
  last_Judged a b c [] w s d e =
      let (r, b', w') =
        readent-again k icb server carries still test_dir _ w 3 s d e (omega arith) in
      elim (accepted sorts (dirent a ∷ dirent b ∷ dirent c ∷ []) refl) [
        | inl (yes', p) ↦ rw (r, b', yes') (_, refl, w', inl (refl, p))
        | inr (no', p) ↦ rw (r, b', no') (_, refl, w', inr (refl, p))
      ]
  last_Judged a b c (x ∷ es) w s d e =
      let (r, b', w') = there (a ∷ b ∷ c ∷ x ∷ es) 3 w s d e (omega arith) (omega arith) in
      rw (r, b') (_, refl, w', inr (refl, λ p. cc (Perm.length-eq p)))

  third_Judged :
      (a b : Entry) (es : List Entry) (w : W) (s : S)
      → IsListed k test_dir w (a ∷ b ∷ es)
      → (server s).world ≡ w
      → Judged server w (a ∷ b ∷ es) (from_third icb qsort (dirent a ∷ dirent b ∷ []) s)
  unfolding dirents
  third_Judged a b [] w s d e =
      let (r, b', w') =
        readent-again k icb server carries still test_dir _ w 2 s d e (omega arith) in
      rw (r, b') (_, refl, w', inr (refl, λ p. cc (Perm.length-eq p)))
  third_Judged a b (c ∷ es) w s d e =
      let (r, b', w') = there (a ∷ b ∷ c ∷ es) 2 w s d e (omega arith) (omega arith) in
      rw (r, b') (last_Judged a b c es w _ d w')

  second_Judged :
      (a : Entry) (es : List Entry) (w : W) (s : S)
      → IsListed k test_dir w (a ∷ es)
      → (server s).world ≡ w
      → Judged server w (a ∷ es) (from_second icb qsort (dirent a ∷ []) s)
  unfolding dirents
  second_Judged a [] w s d e =
      let (r, b', w') =
        readent-again k icb server carries still test_dir _ w 1 s d e (omega arith) in
      rw (r, b') (_, refl, w', inr (refl, λ p. cc (Perm.length-eq p)))
  second_Judged a (b ∷ es) w s d e =
      let (r, b', w') = there (a ∷ b ∷ es) 1 w s d e (omega arith) (omega arith) in
      rw (r, b') (third_Judged a b es w _ d w')

  -- Over a connection that carries READDIR to the server's handler, on a machine that the calls of
  -- READDIR leave as it is and that can list the directory of the tests, and with a `qsort` that
  -- sorts: `test_readdir` stores nothing out of bounds, leaves the machine as it was, and returns
  -- 0 if the entries of the directory are "dir1", a directory, "file1" and "file2", files, in any
  -- order; otherwise it returns -1.
  pub test_readdir-Judged :
      (entries : List Entry) (s : S)
      → IsListed k test_dir (server s).world entries
      → Judged server (server s).world entries (test_readdir icb qsort s)
  unfolding test_readdir dirents
  test_readdir-Judged [] s d =
      let (r, b', w') =
        readent-again k icb server carries still test_dir _ _ 0 s d refl (omega arith) in
      rw (r, b') (_, refl, w', inr (refl, λ p. cc (Perm.length-eq p)))
  test_readdir-Judged (a ∷ es) s d =
      let (r, b', w') = there (a ∷ es) 0 _ s d refl (omega arith) (omega arith) in
      rw (r, b') (second_Judged a es _ _ d w')
