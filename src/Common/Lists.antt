-- ===== src/Common/Lists.antt =====
-- Lists measured and cut by native numbers, under the library's names.
use Prim.Native.Nat.{ℕ, zero, suc, ◌+◌, ◌-◌, ◌≤◌, min}
use mathlib.Core.Path.{◌≡◌, refl, ap}
use mathlib.Core.Option.{Option, none, some}
use mathlib.Core.List.{List, [], ◌∷◌, ◌++◌, append_assoc}
use native.Mathlib.Omega.{arith}

module _ {ℓ} {A : Type ℓ} where
  abbrev pub length : List A → ℕ
  length [] = 0
  length (x ∷ xs) = suc (length xs)

  abbrev pub take : ℕ → List A → List A
  take zero xs = []
  take (suc n) [] = []
  take (suc n) (x ∷ xs) = x ∷ take n xs

  abbrev pub drop : ℕ → List A → List A
  drop zero xs = xs
  drop (suc n) [] = []
  drop (suc n) (x ∷ xs) = drop n xs

  abbrev pub get_elem? : List A → ℕ → Option A
  get_elem? [] i = none
  get_elem? (x ∷ xs) zero = some x
  get_elem? (x ∷ xs) (suc i) = get_elem? xs i

  abbrev pub replicate : ℕ → A → List A
  replicate zero a = []
  replicate (suc n) a = a ∷ replicate n a

  pub length-append : (xs ys : List A) → length (xs ++ ys) ≡ length xs + length ys
  length-append [] ys = omega arith
  length-append (x ∷ xs) ys = omega (arith, length-append xs ys)

  pub length-take : (n : ℕ) (xs : List A) → length (take n xs) ≡ min n (length xs)
  length-take zero xs = omega arith
  length-take (suc n) [] = omega arith
  length-take (suc n) (x ∷ xs) = omega (arith, length-take n xs)

  pub length-drop : (n : ℕ) (xs : List A) → length (drop n xs) ≡ length xs - n
  length-drop zero xs = omega arith
  length-drop (suc n) [] = omega arith
  length-drop (suc n) (x ∷ xs) = omega (arith, length-drop n xs)

  pub length-replicate : (n : ℕ) (a : A) → length (replicate n a) ≡ n
  length-replicate zero a = refl
  length-replicate (suc n) a = ap suc (length-replicate n a)

module _ {ℓ} {A : Type ℓ} where
  pub take-append-drop : (n : ℕ) (xs : List A) → take n xs ++ drop n xs ≡ xs
  take-append-drop zero xs = refl
  take-append-drop (suc n) [] = refl
  take-append-drop (suc n) (x ∷ xs) = rw (take-append-drop n xs)

  -- A cut at the very end of a first part.
  pub take-append_left : (n : ℕ) (xs ys : List A) → length xs ≡ n → take n (xs ++ ys) ≡ xs
  take-append_left zero [] ys h = refl
  take-append_left zero (x ∷ xs) ys h = absurd (omega arith)
  take-append_left (suc n) [] ys h = absurd (omega arith)
  take-append_left (suc n) (x ∷ xs) ys h = ap (λ l. x ∷ l) (take-append_left n xs ys (omega arith))

  pub drop-append_left : (n : ℕ) (xs ys : List A) → length xs ≡ n → drop n (xs ++ ys) ≡ ys
  drop-append_left zero [] ys h = refl
  drop-append_left zero (x ∷ xs) ys h = absurd (omega arith)
  drop-append_left (suc n) [] ys h = absurd (omega arith)
  drop-append_left (suc n) (x ∷ xs) ys h = drop-append_left n xs ys (omega arith)

  pub drop-nil : (n : ℕ) → drop {A = A} n [] ≡ []
  drop-nil zero = refl
  drop-nil (suc n) = refl

  pub take-nil : (n : ℕ) → take {A = A} n [] ≡ []
  take-nil zero = refl
  take-nil (suc n) = refl

  pub drop_all : (n : ℕ) (xs : List A) → length xs ≤ n → drop n xs ≡ []
  drop_all n [] h = drop-nil n
  drop_all zero (x ∷ xs) h = absurd (omega arith)
  drop_all (suc n) (x ∷ xs) h = drop_all n xs (omega arith)

  pub take_all : (n : ℕ) (xs : List A) → length xs ≤ n → take n xs ≡ xs
  take_all n [] h = take-nil n
  take_all zero (x ∷ xs) h = absurd (omega arith)
  take_all (suc n) (x ∷ xs) h = ap (λ l. x ∷ l) (take_all n xs (omega arith))

module _ {ℓ} {A : Type ℓ} where
  -- The second number is a variable with an equation, since `zero + n` is stuck.
  pub drop-drop : (m n k : ℕ) (xs : List A) → m + n ≡ k → drop n (drop m xs) ≡ drop k xs
  drop-drop zero n k xs h = ap (λ j. drop j xs) (omega arith)
  drop-drop (suc m) n k [] h = rw (drop-nil n, drop-nil k)
  drop-drop (suc m) n zero (x ∷ xs) h = absurd (omega arith)
  drop-drop (suc m) n (suc k) (x ∷ xs) h = drop-drop m n k xs (omega arith)

  pub take-append-take :
      (m n k : ℕ) (xs : List A) → m + n ≡ k → take m xs ++ take n (drop m xs) ≡ take k xs
  take-append-take zero n k xs h = ap (λ j. take j xs) (omega arith)
  take-append-take (suc m) n k [] h = rw (take-nil n, take-nil k)
  take-append-take (suc m) n zero (x ∷ xs) h = absurd (omega arith)
  take-append-take (suc m) n (suc k) (x ∷ xs) h =
      ap (λ l. x ∷ l) (take-append-take m n k xs (omega arith))

-- `memcpy (buf + at, bytes, length bytes)`. A copy that ran past the end of the buffer would show
-- in its length.
abbrev pub memcpy : List ℕ → ℕ → List ℕ → List ℕ
memcpy buf at bytes = take at buf ++ (bytes ++ drop (at + length bytes) buf)

pub length-memcpy :
    (buf : List ℕ) (at : ℕ) (bytes : List ℕ)
    → at + length bytes ≤ length buf
    → length (memcpy buf at bytes) ≡ length buf
length-memcpy buf at bytes h = omega (
  arith,
  length-append (take at buf) (bytes ++ drop (at + length bytes) buf),
  length-append bytes (drop (at + length bytes) buf),
  length-take at buf,
  length-drop (at + length bytes) buf,
)

-- One more copy, right behind what earlier copies have put in front.
pub memcpy-behind :
    (before bytes buf : List ℕ) (at : ℕ)
    → length before ≡ at
    → memcpy (before ++ drop at buf) at bytes
      ≡ (before ++ bytes) ++ drop (length (before ++ bytes)) buf
memcpy-behind before bytes buf at h =
    rw
      (
        take-append_left at before (drop at buf) h,
        length-append before bytes,
        h,
        append_assoc before bytes (drop (at + length bytes) buf),
      )
      (ap (λ l. before ++ (bytes ++ l)) past)
  where
    past : drop (at + length bytes) (before ++ drop at buf) ≡ drop (at + length bytes) buf
    past = rw (← drop-drop at (length bytes) (at + length bytes) (before ++ drop at buf) refl) (
        rw (drop-append_left at before (drop at buf) h)
          (drop-drop at (length bytes) (at + length bytes) buf refl))

-- A copy leaves everything behind it alone.
pub drop-memcpy :
    (total : ℕ) (buf : List ℕ) (at : ℕ) (bytes : List ℕ)
    → at + length bytes ≤ total
    → total ≤ length buf
    → drop total (memcpy buf at bytes) ≡ drop total buf
drop-memcpy total buf at bytes fits inside =
    let copied = at + length bytes in
    let rest = total - copied in
    rw (← drop-drop copied rest total (memcpy buf at bytes) (omega arith))
      (rw behind (drop-drop copied rest total buf (omega arith)))
  where
    behind : drop (at + length bytes) (memcpy buf at bytes) ≡ drop (at + length bytes) buf
    behind = rw (← drop-drop at (length bytes) (at + length bytes) (memcpy buf at bytes) refl) (
        rw
          (drop-append_left at (take at buf) (bytes ++ drop (at + length bytes) buf)
            (omega (arith, length-take at buf)))
          (drop-append_left (length bytes) bytes (drop (at + length bytes) buf) refl))
