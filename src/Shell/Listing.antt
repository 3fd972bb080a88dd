-- ===== src/Shell/Listing.antt =====
-- What `cmd_ls` prints over a connection to a server whose machine stays as it is.
use icbinn.Common.{
  ℕ, zero, suc, ◌+◌, ◌≤◌, ◌<◌, ◌≡◌, refl, sym, ap, ◌∙◌, ◌⊎◌, inl, inr, pos, minus_one, Bytes, some,
  List, [], ◌∷◌, ◌++◌, append_assoc, append-nil, length, take, drop, drop_all, lt→ltb, le→ltb-false,
  if◌then◌else◌, arith,
}
use icbinn.Protocol.{Entry, u32_size}
use icbinn.Kernel.{Kernel}
use icbinn.Server.State.{Server}
use icbinn.Server.Readdir.{readdir_1_svc}
use icbinn.Server.Still.{IsStill}
use icbinn.Client.Stubs.{Stubs}
use icbinn.Client.Calls.{Dirent, dirent, dirents, icbinn_readent}
use icbinn.Wire.Link.{CarriesRun}
use icbinn.Wire.Listing.{IsListed}
use icbinn.Wire.Again.{readent-again}
use icbinn.Shell.{Local, Line, listed, Session, icb_type_to_char}
use icbinn.Shell.Commands.{ls_loop, cmd_ls}

-- A line for each entry, in their order.
abbrev pub lines_of : List Entry → List Line
lines_of [] = []
lines_of (e ∷ es) = listed (icb_type_to_char (dirent e).type) (dirent e).name ∷ lines_of es

pub drop-cases :
    (n : ℕ) (es : List Entry)
    → ((length es ≤ n) × (drop n es ≡ []))
      ⊎ ((e : Entry) × (n < length es) × (drop n es ≡ e ∷ drop (suc n) es))
drop-cases n [] = inl (omega arith, drop_all n [] (omega arith))
drop-cases zero (e ∷ es) = inr (e, omega arith, refl)
drop-cases (suc n) (e ∷ es) = elim (drop-cases n es) [
  | inl (h, d) ↦ inl (omega arith, d)
  | inr (x, h, d) ↦ inr (x, omega arith, d)
]

module _ {W S L : Type 0} (k : Kernel W) (icb : Stubs S) (os : Local L) (server : S → Server W)
    (carries : CarriesRun server icb.readdir_1 (readdir_1_svc k)) (still : IsStill k) (w : W)
    (path : Bytes) (entries : List Entry) (d : IsListed k path w entries)
    (few : length entries < u32_size) where
  ls_loop_lem :
      (fuel i : ℕ) (buf : Dirent) (s : Session S L)
      → (server s.conn).world ≡ w
      → i ≤ length entries
      → length entries < i + fuel
      → (s' : Session S L) × (ls_loop icb os path fuel i buf s ≡ some (pos 0, s'))
        × (s'.printed ≡ s.printed ++ lines_of (drop i entries))
  unfolding ls_loop dirents
  ls_loop_lem zero i buf s e h enough = absurd (omega arith)
  ls_loop_lem (suc fuel) i buf s e h enough =
      let (ret, found, same) =
        readent-again k icb server carries still path entries w i s.conn d e (omega arith) in
      let conn = (icbinn_readent icb path i s.conn).2 in
      elim (drop-cases i entries) [
        | inl (over, none_left) ↦
            let past =
              ret
              ∙ ap (λ b. if b then pos 0 else minus_one) (le→ltb-false i (length entries) over) in
            (
              record s { conn = conn },
              rw (past, ls_loop) refl,
              rw none_left (sym (append-nil s.printed)),
            )
        | inr (x, below, there) ↦
            let here =
              ret ∙ ap (λ b. if b then pos 0 else minus_one) (lt→ltb i (length entries) below) in
            let got = found ∙ ap (λ l. dirents (take 1 l)) there in
            let line = listed (icb_type_to_char (dirent x).type) (dirent x).name in
            let s1 = record s { conn = conn; printed = s.printed ++ line ∷ [] } in
            let (s', q, p) =
              ls_loop_lem fuel (suc i) (dirent x) s1 same (omega arith) (omega arith) in
            (
              s',
              rw (here, got, ls_loop) q,
              p
                  ∙ append_assoc s.printed (line ∷ []) (lines_of (drop (suc i) entries))
                  ∙ ap (λ l. s.printed ++ lines_of l) (sym there),
            )
      ]

  -- Over a connection that carries READDIR to the server's handler, on a machine that the calls of
  -- READDIR leave as it is, for a directory that can be listed and has fewer than 2 ^ 32 entries,
  -- and with fuel of more than their number: the loop of `cmd_ls` ends, the command returns 0, and
  -- it has printed a line with type and name for each entry, in their order, and nothing else.
  pub cmd_ls-lists :
      (fuel : ℕ) (buf : Dirent) (s : Session S L)
      → (server s.conn).world ≡ w
      → length entries < fuel
      → (s' : Session S L) × (cmd_ls icb os fuel buf path s ≡ some (pos 0, s'))
        × (s'.printed ≡ s.printed ++ lines_of entries)
  unfolding cmd_ls
  cmd_ls-lists fuel buf s e enough = ls_loop_lem fuel 0 buf s e (omega arith) (omega arith)
