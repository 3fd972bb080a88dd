-- ===== src/Suite/Order.antt =====
-- libicbinn/test/test.c, `compare`: entries in the order of their names, and what is documented of
-- `qsort` with it.
use mathlib.Core.Logic.Or
use mathlib.Core.Path.{ap₂}
use mathlib.Core.List.{Perm, Pairwise, mem-cons, mem-cons_self, Mem-prop}
use mathlib.Core.List.Pairwise
use mathlib.Core.List.Perm
use native.Mathlib.Decide.{ℕ_discrete}
use icbinn.Common.{
  zero, suc, ◌≡◌, refl, sym, ℤ, pos, negsuc, is_negative, is_nonzero, Bytes, Bool, true, false,
  List, [], ◌∷◌, arith,
}
use icbinn.Client.Calls.{Dirent}
use icbinn.Suite.{strcmp, compare}

abbrev pub is_positive : ℤ → Bool
is_positive (pos zero) = false
is_positive (pos (suc n)) = true
is_positive (negsuc n) = false

-- The first is not above the second; the first is below the second.
abbrev pub NotAbove : Dirent → Dirent → Type 0
NotAbove a b = is_positive (compare a b) ≡ false

abbrev pub Below : Dirent → Dirent → Type 0
Below a b = is_negative (compare a b) ≡ true

-- What is documented of `qsort` with `compare`: the elements are the same, and no element is above
-- one that stands behind it.
pub record Sorts (qsort : (Dirent → Dirent → ℤ) → List Dirent → List Dirent) : Type 0 where
  pub permutes : (l : List Dirent) → Perm (qsort compare l) l
  pub ascends : (l : List Dirent) → Pairwise NotAbove (qsort compare l)

pub strcmp_zero : (xs ys : Bytes) → is_nonzero (strcmp xs ys) ≡ false → xs ≡ ys
unfolding strcmp
strcmp_zero [] [] h = refl
strcmp_zero [] (y ∷ ys) h = cc
strcmp_zero (x ∷ xs) [] h = cc
strcmp_zero (x ∷ xs) (y ∷ ys) h = ground (arith, strcmp_zero xs ys)

strcmp_flip :
    (xs ys : Bytes) → is_negative (strcmp xs ys) ≡ true → is_positive (strcmp ys xs) ≡ true
unfolding strcmp
strcmp_flip [] [] h = cc
strcmp_flip [] (y ∷ ys) h = refl
strcmp_flip (x ∷ xs) [] h = cc
strcmp_flip (x ∷ xs) (y ∷ ys) h = ground (arith, strcmp_flip xs ys)

not_both : (a b : Dirent) → Below b a → NotAbove a b → ⊥
unfolding compare
not_both a b below above = cc (strcmp_flip b.name a.name below)

ℤ_discrete : Discrete ℤ
ℤ_discrete = hlevel ℕ_discrete

Dirent-discrete : Discrete Dirent
Dirent-discrete = hlevel (ℕ_discrete, ℤ_discrete)

-- The heads of two arrangements are one element, or stand behind each other's.
heads_eq :
    (a b : Dirent) (l r : List Dirent)
    → Pairwise NotAbove (a ∷ l)
    → Pairwise Below (b ∷ r)
    → Perm (a ∷ l) (b ∷ r)
    → a ≡ b
heads_eq a b l r (Pairwise.cons above _) (Pairwise.cons below _) p = elim (Dirent-discrete a b) [
  | yes e ↦ e
  | no ne ↦
      let a_behind = Or.resolve_left Mem-prop (mem-cons.0 ((Perm.mem_iff p).0 mem-cons_self)) ne in
      let b_behind =
        Or.resolve_left Mem-prop (mem-cons.0 ((Perm.mem_iff p).1 mem-cons_self))
          (λ e. ne (sym e)) in
      absurd (not_both a b (below a a_behind) (above b b_behind))
]

-- A list has at most one ascending arrangement if its names differ.
pub arranged_eq : (l r : List Dirent) → Pairwise NotAbove l → Pairwise Below r → Perm l r → l ≡ r
arranged_eq [] r sl sr p = Perm.nil-eq p
arranged_eq (a ∷ l) [] sl sr p = Perm.eq-nil p
arranged_eq (a ∷ l) (b ∷ r) sl sr p =
    let heads = heads_eq a b l r sl sr p in
    let tails = Perm.cons_inv (Perm.trans p (Perm.symm (Perm.cons' heads Perm.rfl))) in
    ap₂ ◌∷◌ heads (arranged_eq l r (Pairwise.of_cons sl) (Pairwise.of_cons sr) tails)
