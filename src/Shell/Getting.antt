-- ===== src/Shell/Getting.antt =====
-- `cmd_get` over a connection to the PREAD handler of a server whose descriptor is a file.
use Prim.Native.Nat.{bit_or}
use icbinn.Common.{
  ℕ, zero, suc, ◌+◌, ◌-◌, ◌^◌, ◌≤◌, ◌<◌, ◌≡◌, refl, ap, sym, ◌∙◌, subst, ℤ, pos, Bytes, [], ◌∷◌,
  ◌++◌, append_assoc, append-nil, Bool-cases, is_negative, true, false, some, length, take, drop,
  length-take, length-drop, drop-drop, drop_all, take-append_left, ◌==◌, min, inl, inr, arith,
}
use icbinn.Protocol.{max_data}
use icbinn.Kernel.{Kernel, returned}
use icbinn.Kernel.RegularFile.{ReadsAs}
use icbinn.Server.State.{Server}
use icbinn.Server.Files.{pread_1_svc, rdonly, wronly, creat, trunc}
use icbinn.Client.Stubs.{Stubs}
use icbinn.Client.Calls.{icbinn_open, icbinn_lock}
use icbinn.Client.Transfer.{Filling, icbinn_pread}
use icbinn.Wire.Link.{Carries}
use icbinn.Wire.Reading.{pread-content}
use icbinn.Shell.{Local, Session}
use icbinn.Shell.Commands.{get_loop, cmd_get, shut, shut_local}

-- A local descriptor on a file that grows: `written` is what it holds, `write` takes every byte and
-- puts them at its end, and `close` keeps them.
pub record Appends {L : Type 0} (os : Local L) (fd : ℕ) (written : L → Bytes) : Type 0 where
  pub complete : (bytes : Bytes) (l : L) → (os.write fd bytes l).0 ≡ returned (length bytes)
  pub appended : (bytes : Bytes) (l : L) → written (os.write fd bytes l).1 ≡ written l ++ bytes
  pub closed : (l : L) → written (os.close fd l) ≡ written l

pub test_zero : (n : ℕ) → (n == 0) ≡ true → n ≡ 0
test_zero n h = ground arith

pub test_pos : (n : ℕ) → (n == 0) ≡ false → 0 < n
test_pos n h = ground arith

take-rest : (m : ℕ) (xs : Bytes) → take m xs ++ drop (length (take m xs)) xs ≡ xs
take-rest zero xs = refl
take-rest (suc m) [] = refl
take-rest (suc m) (x ∷ xs) = ap (λ l. x ∷ l) (take-rest m xs)

-- The piece that is read at an offset, and what is read behind it.
piece-rest :
    (m o : ℕ) (content : Bytes)
    → let piece = take m (drop o content) in
      piece ++ drop (o + length piece) content ≡ drop o content
piece-rest m o content =
    let piece = take m (drop o content) in
    ap (λ r. piece ++ r) (sym (drop-drop o (length piece) (o + length piece) content refl))
    ∙ take-rest m (drop o content)

module _ {S L : Type 0} (icb : Stubs S) (os : Local L) (fd : ℕ) (ifd : ℤ) where
  abbrev reading : (o : ℕ) → Bytes → Session S L → ℤ × Filling S
  reading o buf s = icbinn_pread icb ifd max_data o (record { buf = buf; conn = s.conn })

  -- the last round, which reads nothing
  last_round :
      (fuel o : ℕ) (buf : Bytes) (s : Session S L)
      → (reading o buf s).0 ≡ pos 0
      → get_loop icb os fd ifd (suc fuel) o buf s
        ≡ some (
          pos 0,
          shut icb os ifd (shut_local icb os fd (record s { conn = (reading o buf s).1.conn })),
        )
  unfolding get_loop
  last_round fuel o buf s r = rw r refl

  -- a round that writes what it reads
  next_round :
      (fuel o n : ℕ) (buf : Bytes) (s : Session S L)
      → (reading o buf s).0 ≡ pos n
      → 0 < n
      → (os.write fd (take n (reading o buf s).1.buf) s.local).0 ≡ returned n
      → get_loop icb os fd ifd (suc fuel) o buf s
        ≡ get_loop icb os fd ifd fuel (o + n) (reading o buf s).1.buf (record s {
          conn = (reading o buf s).1.conn;
          local = (os.write fd (take n (reading o buf s).1.buf) s.local).1;
        })
  unfolding get_loop
  next_round fuel o n buf s r some_bytes w =
      let a : (n == 0) ≡ false = ground arith in
      let b : (n == n) ≡ true = ground arith in rw (r, w, a, b) refl

module _ {W S L : Type 0} (k : Kernel W) (icb : Stubs S) (server : S → Server W)
    (carries : Carries server icb.pread_1 (pread_1_svc k)) (os : Local L) (fd : ℕ)
    (written : L → Bytes) (file : Appends os fd written) (ifd : ℤ) (content : Bytes)
    (low : length content + max_data < 2 ^ 63) where
  copies :
      (fuel o : ℕ) (buf : Bytes) (s : Session S L)
      → o ≤ length content
      → length content - o < fuel
      → ReadsAs k ifd content (server s.conn).world
      → (s' : Session S L) × (get_loop icb os fd ifd fuel o buf s ≡ some (pos 0, s'))
        × (written s'.local ≡ written s.local ++ drop o content)
  copies zero o buf s inside enough h = absurd (omega arith)
  copies (suc fuel) o buf s inside enough h =
      let piece = take max_data (drop o content) in
      let n = length piece in
      let size : n ≡ min max_data (length content - o) =
        omega (arith, length-take max_data (drop o content), length-drop o content) in
      let g =
        pread-content k icb server carries ifd content max_data o
          (record { buf = buf; conn = s.conn }) (omega arith) h in
      let filled = (reading icb os fd ifd o buf s).1 in
      let front : take n filled.buf ≡ piece =
        ap (take n) g.stored ∙ take-append_left n piece (drop n buf) refl in
      elim (Bool-cases (n == 0)) [
        | inl z ↦
            let none_left : n ≡ 0 = test_zero n z in
            let empty : drop o content ≡ [] = drop_all o content (omega arith) in
            (
              _,
              last_round icb os fd ifd fuel o buf s (g.result ∙ ap pos none_left),
              file.closed s.local
                  ∙ sym (ap (λ r. written s.local ++ r) empty ∙ append-nil (written s.local)),
            )
        | inr z ↦
            let some_bytes : 0 < n = test_pos n z in
            let wrote_all : (os.write fd (take n filled.buf) s.local).0 ≡ returned n =
              ap (λ b. (os.write fd b s.local).0) front ∙ file.complete piece s.local in
            let (s', q, c) =
              copies fuel (o + n) filled.buf
                (record s {
                  conn = filled.conn;
                  local = (os.write fd (take n filled.buf) s.local).1;
                })
                (omega arith) (omega arith)
                (subst (λ (v : Server W). ReadsAs k ifd content v.world) (sym g.kept) h) in
            (
              s',
              next_round icb os fd ifd fuel o n buf s g.result some_bytes wrote_all ∙ q,
              c
                  ∙ ap (λ x. x ++ drop (o + n) content)
                      (ap (λ b. written (os.write fd b s.local).1) front
                        ∙ file.appended piece s.local)
                  ∙ append_assoc (written s.local) piece (drop (o + n) content)
                  ∙ ap (λ r. written s.local ++ r) (piece-rest max_data o content),
            )
      ]

  -- Where `cmd_get` has opened the remote file, the lock (of the descriptor that its unset
  -- variable names) is granted and the local file is created empty, over a connection that carries
  -- PREAD to the server's handler, with a remote file that reads as `content`, of less than 2 ^ 63
  -- - 65536 bytes, and a local descriptor that takes every byte and appends it: with fuel of more
  -- than the content's length, the loop ends, the command returns 0, and the local file holds
  -- `content`.
  pub cmd_get-copies :
      (fuel : ℕ) (junk_fd : ℤ) (buf from to : Bytes) (s : Session S L)
      → let (opened, c1) = icbinn_open icb from rdonly s.conn in
        let (locked, c2) = icbinn_lock icb junk_fd (pos 0) c1 in
        let (created, l) = os.open_file to (bit_or (bit_or wronly creat) trunc) s.local in
        opened ≡ ifd
        → is_negative ifd ≡ false
        → locked ≡ pos 0
        → created ≡ returned fd
        → written l ≡ []
        → ReadsAs k ifd content (server c2).world
        → length content < fuel
        → (s' : Session S L) × (cmd_get icb os fuel junk_fd buf from to s ≡ some (pos 0, s'))
          × (written s'.local ≡ content)
  unfolding cmd_get
  cmd_get-copies fuel junk_fd buf from to s opened valid locked created new h enough =
      let c1 = (icbinn_open icb from rdonly s.conn).1 in
      let start : Session S L = record s {
        conn = (icbinn_lock icb junk_fd (pos 0) c1).1;
        local = (os.open_file to (bit_or (bit_or wronly creat) trunc) s.local).1;
      } in
      let (s', q, c) = copies fuel 0 buf start (omega arith) (omega arith) h in
      (s', rw (created, locked, opened, valid) q, c ∙ ap (λ x. x ++ content) new)
