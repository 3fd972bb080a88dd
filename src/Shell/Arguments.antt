-- ===== src/Shell/Arguments.antt =====
-- The arguments that the handlers of the table read, against those that they get.
use icbinn.Common.{
  ℕ, suc, ◌<◌, ◌≡◌, refl, sym, subst, ℤ, Bytes, Bool-cases, Option, none, some, List, [], ◌∷◌,
  length, ltb, ◌==◌, ==_iff, lt→ltb, inl, inr, arith,
}
use icbinn.Client.Stubs.{Stubs}
use icbinn.Shell.{Local, Session}
use icbinn.Shell.Parse.{
  Handler, get, help, ls, mkdir, null, put, quit, rename, rm, rmdir, stat, Match, Parsed, nothing,
  overrun, invalid, incorrect, calls, Cmd, cmd_tab, words, max_args, parse_argv, parse_cmd,
  find_command, find_loop, compare_names, Best, improve, chosen, equal, differs, prefix_of,
}
use icbinn.Shell.Interact.{
  Memory, Next, goes_on, quits, unfinished, overran, call_handler, act_on, run_cmd, ended_within,
  report,
}

-- A command that has ended in any way but by an access behind `argv`.
abbrev pub StaysWithin : {S L : Type 0} → Next S L → Type 0
StaysWithin overran = ⊥
StaysWithin _ = Unit

-- the variables of the search at first
abbrev no_match : Best
no_match = record { best = none; most_matched = 0; num_matched = 0 }

module _ (P : Cmd → Type 0) where
  abbrev All : List Cmd → Type 0
  All [] = Unit
  All (c ∷ cs) = P c × All cs

  abbrev IfAny : Option Cmd → Type 0
  IfAny none = Unit
  IfAny (some c) = P c

  improve-IfAny : (c : Cmd) (n : ℕ) (b : Best) → P c → IfAny b.best → IfAny (improve c n b).best
  unfolding improve
  improve-IfAny c n b h i = elim (Bool-cases (ltb b.most_matched n)) [
    | inl e ↦ rw (e, improve) h
    | inr e ↦ elim (Bool-cases (n == b.most_matched)) [
      | inl f ↦ rw (e, f, improve) i
      | inr f ↦ rw (e, f, improve) i
    ]
  ]

  chosen-IfAny : (b : Best) → IfAny b.best → IfAny (chosen b)
  unfolding chosen
  chosen-IfAny b i = elim (Bool-cases (b.num_matched == 1)) [ inl e ↦ rw e i | inr e ↦ rw e tt ]

  -- What holds of every command of a table holds of the one that is found.
  find_loop-IfAny :
      (cs : List Cmd) (name : Bytes) (b : Best)
      → All cs
      → IfAny b.best
      → IfAny (find_loop cs name b)
  unfolding find_loop
  find_loop-IfAny [] name b h i = chosen-IfAny b i
  find_loop-IfAny (c ∷ cs) name b (h, hs) i =
      go (compare_names c.name name 0) refl (λ b'. find_loop-IfAny cs name b' hs)
    where
      go :
          (m : Match)
          → compare_names c.name name 0 ≡ m
          → ((b' : Best) → IfAny b'.best → IfAny (find_loop cs name b'))
          → IfAny (find_loop (c ∷ cs) name b)
      go equal e ih = rw (e, find_loop) h
      go differs e ih = rw (e, find_loop) (ih b i)
      go (prefix_of n) e ih = rw (e, find_loop) (ih (improve c n b) (improve-IfAny c n b h i))

module _ {S L : Type 0} (icb : Stubs S) (os : Local L) (m : Memory) where
  within-ended : (o : Option (ℤ × Session S L)) → StaysWithin (ended_within o)
  within-ended none = tt
  within-ended (some (ret, s)) = tt

  -- Called with as many arguments as the table says, a handler reads no more.
  abbrev Fits : Cmd → Type 0
  Fits c =
      (args : List Bytes) (s : Session S L)
      → suc (length args) ≡ c.nargs
      → StaysWithin (call_handler icb os m c.handler args s)

  two :
      (h : Handler) (args : List Bytes) (s : Session S L)
      → ((a b : Bytes) → StaysWithin (call_handler icb os m h (a ∷ b ∷ []) s))
      → suc (length args) ≡ 3
      → StaysWithin (call_handler icb os m h args s)
  two h [] s f e = absurd (omega arith)
  two h (a ∷ []) s f e = absurd (omega arith)
  two h (a ∷ b ∷ []) s f e = f a b
  two h (a ∷ b ∷ c ∷ args) s f e = absurd (omega arith)

  one :
      (h : Handler) (args : List Bytes) (s : Session S L)
      → ((a : Bytes) → StaysWithin (call_handler icb os m h (a ∷ []) s))
      → suc (length args) ≡ 2
      → StaysWithin (call_handler icb os m h args s)
  one h [] s f e = absurd (omega arith)
  one h (a ∷ []) s f e = f a
  one h (a ∷ b ∷ args) s f e = absurd (omega arith)

  none_at_all :
      (h : Handler) (args : List Bytes) (s : Session S L)
      → StaysWithin (call_handler icb os m h [] s)
      → suc (length args) ≡ 1
      → StaysWithin (call_handler icb os m h args s)
  none_at_all h [] s f e = f
  none_at_all h (a ∷ args) s f e = absurd (omega arith)

  cmd_tab-Fits : All Fits cmd_tab
  unfolding call_handler
  cmd_tab-Fits = (
    (λ args s e. two get args s (λ a b. within-ended _) e),
    (
      (λ args s e. none_at_all help args s tt e),
      (
        (λ args s e. one ls args s (λ a. within-ended _) e),
        (
          (λ args s e. one mkdir args s (λ a. tt) e),
          (
            (λ args s e. none_at_all null args s tt e),
            (
              (λ args s e. two put args s (λ a b. within-ended _) e),
              (
                (λ args s e. none_at_all quit args s tt e),
                (
                  (λ args s e. two rename args s (λ a b. tt) e),
                  (
                    (λ args s e. one rm args s (λ a. tt) e),
                    (
                      (λ args s e. one rmdir args s (λ a. tt) e),
                      ((λ args s e. one stat args s (λ a. tt) e), tt),
                    ),
                  ),
                ),
              ),
            ),
          ),
        ),
      ),
    ),
  )

  report-StaysWithin : (next : Next S L) → StaysWithin next → StaysWithin (report icb os m next)
  report-StaysWithin (goes_on ret s) h = tt
  report-StaysWithin (quits s) h = tt
  report-StaysWithin unfinished h = tt
  report-StaysWithin overran h = h

  -- A line whose words are handed on to a handler that reads no more of them.
  abbrev HandsOn : Parsed → Type 0
  HandsOn overrun = ⊥
  HandsOn (calls handler args) =
      (s : Session S L) → StaysWithin (call_handler icb os m handler args s)
  HandsOn _ = Unit

  parse_argv-HandsOn : (argv : List Bytes) → HandsOn (parse_argv cmd_tab argv)
  unfolding parse_argv find_command
  parse_argv-HandsOn [] = tt
  parse_argv-HandsOn (name ∷ args) =
      let found = find_loop-IfAny Fits cmd_tab name no_match cmd_tab-Fits tt in
      go (find_command cmd_tab name) found refl
    where
      go :
          (o : Option Cmd)
          → IfAny Fits (find_command cmd_tab name)
          → find_command cmd_tab name ≡ o
          → HandsOn (parse_argv cmd_tab (name ∷ args))
      go none h e = rw (e, parse_argv) tt
      go (some c) h e = elim (Bool-cases (c.nargs == suc (length args))) [
        | inl same ↦
            rw (e, same, parse_argv)
              (λ s.
                subst (IfAny Fits) e h args s (sym ((==_iff c.nargs (suc (length args))).0 same)))
        | inr other ↦ rw (e, other, parse_argv) tt
      ]

  act_on-StaysWithin :
      (found : ℕ) (parsed : Parsed) (s : Session S L)
      → HandsOn parsed
      → StaysWithin (act_on icb os m found parsed s)
  unfolding act_on
  act_on-StaysWithin found nothing s h = tt
  act_on-StaysWithin found overrun s h = h
  act_on-StaysWithin found invalid s h = tt
  act_on-StaysWithin found (incorrect c) s h = tt
  act_on-StaysWithin found (calls handler args) s h = report-StaysWithin _ (h s)

  -- A line of fewer than 32 words makes no access behind `argv`: neither `parse_cmd` nor the
  -- handler that the table names, which gets as many arguments as it reads.
  pub run_cmd-StaysWithin :
      (line : Bytes) (s : Session S L)
      → length (words none line) < max_args
      → StaysWithin (run_cmd icb os m line s)
  unfolding run_cmd parse_cmd
  run_cmd-StaysWithin line s few = rw (lt→ltb (length (words none line)) max_args few) (
      act_on-StaysWithin _ (parse_argv cmd_tab (words none line)) s
        (parse_argv-HandsOn (words none line)))
