-- ===== src/Examples/Sorting.antt =====
-- A `qsort`, for the theorems that take one.
use mathlib.Core.List.{Mem, Perm, Pairwise, Pairwise-singleton, forall_mem-cons}
use mathlib.Core.List.Perm
use icbinn.Common.{
  ◌≡◌, refl, ℤ, Bytes, Bool-cases, true, false, List, [], ◌∷◌, inl, inr, if◌then◌else◌, arith,
}
use icbinn.Client.Calls.{Dirent}
use icbinn.Suite.{strcmp, compare}
use icbinn.Suite.Order.{is_positive, NotAbove, Sorts}

put_in : (Dirent → Dirent → ℤ) → Dirent → List Dirent → List Dirent
put_in cmp x [] = x ∷ []
put_in cmp x (y ∷ ys) =
    let rest = put_in cmp x ys in if is_positive (cmp x y) then y ∷ rest else x ∷ y ∷ ys

unfoldable pub sorted : (Dirent → Dirent → ℤ) → List Dirent → List Dirent
unfolding put_in
sorted cmp [] = []
sorted cmp (x ∷ xs) = put_in cmp x (sorted cmp xs)

strcmp_total :
    (xs ys : Bytes) → is_positive (strcmp xs ys) ≡ true → is_positive (strcmp ys xs) ≡ false
unfolding strcmp
strcmp_total [] [] h = cc
strcmp_total [] (y ∷ ys) h = cc
strcmp_total (x ∷ xs) [] h = refl
strcmp_total (x ∷ xs) (y ∷ ys) h = ground (arith, strcmp_total xs ys)

strcmp_trans :
    (xs ys zs : Bytes)
    → is_positive (strcmp xs ys) ≡ false
    → is_positive (strcmp ys zs) ≡ false
    → is_positive (strcmp xs zs) ≡ false
unfolding strcmp
strcmp_trans [] ys [] g h = refl
strcmp_trans [] ys (z ∷ zs) g h = refl
strcmp_trans (x ∷ xs) [] zs g h = cc
strcmp_trans (x ∷ xs) (y ∷ ys) [] g h = cc
strcmp_trans (x ∷ xs) (y ∷ ys) (z ∷ zs) g h = ground (arith, strcmp_trans xs ys zs)

NotAbove-IsProp : (a b : Dirent) → IsProp (NotAbove a b)
NotAbove-IsProp a b = hlevel

put_in-perm : (x : Dirent) (l : List Dirent) → Perm (put_in compare x l) (x ∷ l)
unfolding put_in
put_in-perm x [] = Perm.rfl
put_in-perm x (y ∷ ys) = elim (Bool-cases (is_positive (compare x y))) [
  | inl e ↦ rw e (Perm.trans (Perm.cons y (put_in-perm x ys)) (Perm.swap x y ys))
  | inr e ↦ rw e Perm.rfl
]

above_back : (x y : Dirent) → is_positive (compare x y) ≡ true → NotAbove y x
unfolding compare
above_back x y e = strcmp_total x.name y.name e

-- What is not above the head of a sorted list is above none of it.
ahead :
    (x y : Dirent) (ys : List Dirent)
    → NotAbove x y
    → ((z : Dirent) → Mem z ys → NotAbove y z)
    → (z : Dirent) → Mem z (y ∷ ys)
    → NotAbove x z
unfolding compare
ahead x y ys first rest =
    (forall_mem-cons (NotAbove-IsProp x)).1
      (first, λ z m. strcmp_trans x.name y.name z.name first (rest z m))

put_in-Pairwise :
    (x : Dirent) (l : List Dirent) → Pairwise NotAbove l → Pairwise NotAbove (put_in compare x l)
unfolding put_in
put_in-Pairwise x [] s = Pairwise-singleton _ x
put_in-Pairwise x (y ∷ ys) (Pairwise.cons below s) = elim (Bool-cases (is_positive (compare x y))) [
  | inr e ↦ rw e (Pairwise.cons (ahead x y ys e below) (Pairwise.cons below s))
  | inl e ↦ rw e (
      Pairwise.cons
        (λ z m.
          (forall_mem-cons (NotAbove-IsProp y)).1 (above_back x y e, below) z
            ((Perm.mem_iff (put_in-perm x ys)).0 m))
        (put_in-Pairwise x ys s))
]

sorted-perm : (l : List Dirent) → Perm (sorted compare l) l
unfolding sorted
sorted-perm [] = Perm.rfl
sorted-perm (x ∷ xs) = Perm.trans (put_in-perm x (sorted compare xs)) (Perm.cons x (sorted-perm xs))

sorted-Pairwise : (l : List Dirent) → Pairwise NotAbove (sorted compare l)
unfolding sorted
sorted-Pairwise [] = Pairwise.nil
sorted-Pairwise (x ∷ xs) = put_in-Pairwise x (sorted compare xs) (sorted-Pairwise xs)

pub sorted-Sorts : Sorts sorted
sorted-Sorts = record { permutes = sorted-perm; ascends = sorted-Pairwise }
