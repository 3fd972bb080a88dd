-- ===== src/Shell/Matching.antt =====
-- The search of client.c for a command against a description of what it finds.
use native.Mathlib.Nat.{zero-add}
use icbinn.Common.{
  subst, ℕ, suc, ◌+◌, ◌<◌, ◌≡◌, refl, ap, Bytes, Bool, true, false, Bool-cases, inl, inr, Option,
  none, some, List, [], ◌∷◌, ◌++◌, append_assoc, append-nil, length, same_bytes, ◌==◌, ◌&&◌, lt→ltb,
  le→ltb-false, length-append, if◌then◌else◌, arith,
}
use icbinn.Shell.Parse.{
  Cmd, Match, equal, differs, prefix_of, compare_names, Best, improve, chosen, find_loop,
  find_command,
}

-- `name` is the beginning of a longer word.
abbrev pub begins : (word name : Bytes) → Bool
begins [] name = false
begins (x ∷ xs) [] = true
begins (x ∷ xs) (y ∷ ys) = (x == y) && begins xs ys

-- The first command of this name.
abbrev pub named : List Cmd → Bytes → Option Cmd
named [] name = none
named (c ∷ cs) name = if same_bytes c.name name then some c else named cs name

-- The commands whose names begin with this one.
abbrev pub beginning : List Cmd → Bytes → List Cmd
beginning [] name = []
beginning (c ∷ cs) name = if begins c.name name then c ∷ beginning cs name else beginning cs name

-- The command of this name, or else the only one whose name begins with it.
abbrev pub sole : Option Cmd → List Cmd → Option Cmd
sole (some c) cs = some c
sole none [] = none
sole none (c ∷ []) = some c
sole none (c ∷ d ∷ cs) = none

abbrev compared : (cptr nptr : Bytes) → ℕ → Match
compared cptr nptr n =
    if same_bytes cptr nptr
    then equal
    else if begins cptr nptr
    then prefix_of (n + length nptr)
    else differs

compare_names_lem : (cptr nptr : Bytes) (n : ℕ) → compare_names cptr nptr n ≡ compared cptr nptr n
unfolding compare_names
compare_names_lem [] [] n = refl
compare_names_lem [] (y ∷ ys) n = refl
compare_names_lem (x ∷ xs) [] n = ap prefix_of (omega arith)
compare_names_lem (x ∷ xs) (y ∷ ys) n = elim (Bool-cases (x == y)) [
  | inl e ↦
      let shift : suc n + length ys ≡ n + suc (length ys) = omega arith in
      rw (e, compare_names_lem xs ys (suc n), shift) refl
  | inr e ↦ rw e refl
]

-- The variables of the search when `cs` are the commands found so far.
abbrev after : ℕ → List Cmd → Best
after n [] = record { best = none; most_matched = 0; num_matched = 0 }
after n (c ∷ cs) = record { best = some c; most_matched = n; num_matched = length (c ∷ cs) }

improve-after :
    (n : ℕ) (c : Cmd) (cs : List Cmd) → 0 < n → improve c n (after n cs) ≡ after n (cs ++ c ∷ [])
unfolding improve
improve-after n c [] h = rw (lt→ltb 0 n h) refl
improve-after n c (d ∷ cs) h =
    let same : (n == n) ≡ true = ground arith in
    let count : length (cs ++ c ∷ []) ≡ suc (length cs) =
      omega (arith, length-append cs (c ∷ [])) in
    rw (le→ltb-false n n (omega arith), same, count) refl

chosen-after : (n : ℕ) (cs : List Cmd) → chosen (after n cs) ≡ sole none cs
unfolding chosen
chosen-after n [] = refl
chosen-after n (c ∷ []) = refl
chosen-after n (c ∷ d ∷ cs) =
    let several : (suc (suc (length cs)) == 1) ≡ false = ground arith in rw several refl

find_loop-after :
    (cs : List Cmd) (name : Bytes) (seen : List Cmd)
    → 0 < length name
    → find_loop cs name (after (length name) seen)
      ≡ sole (named cs name) (seen ++ beginning cs name)
unfolding find_loop
find_loop-after [] name seen h = rw (append-nil seen) (chosen-after (length name) seen)
find_loop-after (c ∷ cs) name seen h =
    rw (find_loop, compare_names_lem c.name name 0)
      (elim (Bool-cases (same_bytes c.name name)) [
        | inl e ↦ rw e refl
        | inr e ↦ elim (Bool-cases (begins c.name name)) [
          | inl b ↦
              rw (e, b, zero-add (length name), improve-after (length name) c seen h)
                (subst
                  (λ ps.
                    find_loop cs name (after (length name) (seen ++ c ∷ []))
                    ≡ sole (named cs name) ps)
                  (append_assoc seen (c ∷ []) (beginning cs name))
                  (find_loop-after cs name (seen ++ c ∷ []) h))
          | inr b ↦ rw (e, b) (find_loop-after cs name seen h)
        ]
      ])

-- For a name that is not empty, `find_command` finds the first command of the table that has this
-- name; if none has it, the only command whose name begins with it; and otherwise, for an unknown
-- or an ambiguous name, none.
pub find_command_lem :
    (tab : List Cmd) (name : Bytes)
    → 0 < length name
    → find_command tab name ≡ sole (named tab name) (beginning tab name)
unfolding find_command
find_command_lem tab name h = find_loop-after tab name [] h
