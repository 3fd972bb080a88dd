-- ===== src/Shell/Parse.antt =====
-- libicbinn/client/client.c: the table of commands, the search in it, and the split of a line.
use icbinn.Common.{
  ℕ, suc, Bytes, Bool, ◌||◌, ◌&&◌, Option, none, some, List, [], ◌∷◌, ◌++◌, codes, length, ltb, leb,
  ◌==◌, if◌then◌else◌,
}

-- The handlers of `cmd_tab`.
pub data Handler : Type 0 where
  get help ls mkdir null put quit rename rm rmdir stat : Handler

-- `struct cmd`, without the help text
pub record Cmd : Type 0 where
  pub name : Bytes
  pub handler : Handler
  pub nargs : ℕ

abbrev cmd : Bytes → Handler → ℕ → Cmd
cmd name handler nargs = record { name = name; handler = handler; nargs = nargs }

abbrev pub cmd_tab : List Cmd
cmd_tab =
    cmd (codes "get") get 3
    ∷ cmd (codes "help") help 1
    ∷ cmd (codes "ls") ls 2
    ∷ cmd (codes "mkdir") mkdir 2
    ∷ cmd (codes "null") null 1
    ∷ cmd (codes "put") put 3
    ∷ cmd (codes "quit") quit 1
    ∷ cmd (codes "rename") rename 3
    ∷ cmd (codes "rm") rm 2
    ∷ cmd (codes "rmdir") rmdir 2
    ∷ cmd (codes "stat") stat 2
    ∷ []

-- How a name from the table compares with the one that was typed: they are equal, the typed one
-- ends first, after as many bytes as it says, or they differ.
pub data Match : Type 0 where
  equal differs : Match
  prefix_of : ℕ → Match

-- The inner loop, at a distance of `n` from the start.
unfoldable pub compare_names : (cptr nptr : Bytes) → (n : ℕ) → Match
compare_names [] [] n = equal
compare_names [] (y ∷ ys) n = differs
compare_names (x ∷ xs) [] n = prefix_of n
compare_names (x ∷ xs) (y ∷ ys) n = if x == y then compare_names xs ys (suc n) else differs

-- The local variables of `find_command`.
pub record Best : Type 0 where
  pub best : Option Cmd
  pub most_matched : ℕ
  pub num_matched : ℕ

unfoldable pub improve : Cmd → ℕ → Best → Best
improve c n b =
    if ltb b.most_matched n
    then record { best = some c; most_matched = n; num_matched = 1 }
    else if n == b.most_matched
    then record b { num_matched = suc b.num_matched }
    else b

-- The `switch` at the end.
unfoldable pub chosen : Best → Option Cmd
chosen b = if b.num_matched == 1 then b.best else none

unfoldable pub find_loop : List Cmd → Bytes → Best → Option Cmd
unfolding compare_names improve chosen
find_loop [] name b = chosen b
find_loop (c ∷ cs) name b = elim (compare_names c.name name 0) [
  | equal ↦ some c
  | differs ↦ find_loop cs name b
  | prefix_of n ↦ find_loop cs name (improve c n b)
]

unfoldable pub find_command : (tab : List Cmd) → Bytes → Option Cmd
unfolding find_loop
find_command tab name =
    find_loop tab name (record { best = none; most_matched = 0; num_matched = 0 })

-- `isspace` of the C locale
abbrev pub isspace : ℕ → Bool
isspace c = (c == 32) || (leb 9 c && leb c 13)

-- The words of a line, from within a word, if one has begun, on.
unfoldable pub words : Option Bytes → Bytes → List Bytes
words none [] = []
words (some word) [] = word ∷ []
words none (c ∷ line) = if isspace c then words none line else words (some (c ∷ [])) line
words (some word) (c ∷ line) =
    if isspace c then word ∷ words none line else words (some (word ++ c ∷ [])) line

-- What `parse_cmd` does with a line: nothing, for one without words; an access behind `argv`; a
-- message; or a call of a handler.
pub data Parsed : Type 0 where
  nothing overrun invalid : Parsed
  incorrect : Cmd → Parsed
  calls : Handler → List Bytes → Parsed

-- The places of `argv`.
abbrev pub max_args : ℕ
max_args = 32

-- With the words of a line.
unfoldable pub parse_argv : List Cmd → List Bytes → Parsed
unfolding find_command
parse_argv tab [] = nothing
parse_argv tab (name ∷ args) = elim (find_command tab name) [
  | none ↦ invalid
  | some c ↦ if c.nargs == suc (length args) then calls c.handler args else incorrect c
]

unfoldable pub parse_cmd : List Cmd → Bytes → Parsed
unfolding words parse_argv
parse_cmd tab cmd_string =
    let argv = words none cmd_string in
    if ltb (length argv) max_args then parse_argv tab argv else overrun
