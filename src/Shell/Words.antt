-- ===== src/Shell/Words.antt =====
-- The split of a line by `parse_cmd` against lines that are built of words.
use icbinn.Common.{
  ◌≤◌, ◌<◌, ◌≡◌, refl, ap, sym, ◌∙◌, Bytes, false, none, some, List, [], ◌∷◌, ◌++◌, append_assoc,
  append-nil, length, le→ltb-false, arith,
}
use icbinn.Shell.Parse.{Cmd, isspace, words, parse_cmd, overrun, max_args}

-- No byte is white space.
abbrev pub IsSolid : Bytes → Type 0
IsSolid [] = Unit
IsSolid (c ∷ cs) = (isspace c ≡ false) × IsSolid cs

-- Each word has a byte, and no white space.
abbrev pub AreWords : List Bytes → Type 0
AreWords [] = Unit
AreWords (w ∷ ws) = (0 < length w) × IsSolid w × AreWords ws

-- The words, with a space behind each.
abbrev pub spaced : List Bytes → Bytes
spaced [] = []
spaced (w ∷ ws) = w ++ 32 ∷ spaced ws

-- within a word
words_within :
    (begun w : Bytes) (line : Bytes)
    → IsSolid w
    → words (some begun) (w ++ 32 ∷ line) ≡ (begun ++ w) ∷ words none line
unfolding words
words_within begun [] line h = ap (λ b. b ∷ words none line) (sym (append-nil begun))
words_within begun (c ∷ w) line (e, h) = rw e (
    words_within (begun ++ c ∷ []) w line h
    ∙ ap (λ b. b ∷ words none line) (append_assoc begun (c ∷ []) w))

words_head :
    (w : Bytes) (line : Bytes)
    → 0 < length w
    → IsSolid w
    → words none (w ++ 32 ∷ line) ≡ w ∷ words none line
unfolding words
words_head [] line h solid = absurd (omega arith)
words_head (c ∷ w) line h (e, solid) = rw e (words_within (c ∷ []) w line solid)

-- A line that is built of words, each with a byte and without white space, and a space behind
-- each, is split into just these words.
pub words-spaced : (ws : List Bytes) → AreWords ws → words none (spaced ws) ≡ ws
words-spaced [] h = unfold words in refl
words-spaced (w ∷ ws) (some_byte, solid, h) =
    words_head w (spaced ws) some_byte solid ∙ ap (λ l. w ∷ l) (words-spaced ws h)

-- A line that is built of 32 words or more, each with a byte and without white space, and a space
-- behind each, makes `parse_cmd` access its array `argv` outside its bounds, whatever the table of
-- commands.
pub parse_cmd_overrun :
    (tab : List Cmd) (ws : List Bytes)
    → AreWords ws
    → max_args ≤ length ws
    → parse_cmd tab (spaced ws) ≡ overrun
unfolding parse_cmd
parse_cmd_overrun tab ws h many =
    rw (words-spaced ws h, le→ltb-false (length ws) max_args many) refl
