-- ===== src/Shell/Putting.antt =====
-- `cmd_put` over a connection to the PWRITE handler of a server whose descriptor is a file.
use Prim.Native.Nat.{bit_or}
use icbinn.Common.{
  ℕ, zero, suc, ◌+◌, ◌^◌, ◌<◌, ◌≡◌, refl, ap, sym, ◌∙◌, ℤ, pos, Bytes, [], ◌∷◌, Bool-cases,
  is_negative, true, false, some, length, take, drop, length-take, length-drop, take_all, drop_all,
  take-append-drop, ◌==◌, min, inl, inr, arith,
}
use icbinn.Protocol.{max_data}
use icbinn.Kernel.{Kernel, returned}
use icbinn.Kernel.RegularFile.{WritesAs, put, write_at, write_at-write_at}
use icbinn.Server.State.{Server}
use icbinn.Server.Files.{pwrite_1_svc, rdonly, wronly, creat, trunc}
use icbinn.Client.Stubs.{Stubs}
use icbinn.Client.Calls.{icbinn_open, icbinn_lock, icbinn_close}
use icbinn.Client.Transfer.{icbinn_pwrite}
use icbinn.Wire.Link.{Carries}
use icbinn.Wire.Writing.{pwrite-content}
use icbinn.Shell.{Local, Session}
use icbinn.Shell.Commands.{put_loop, cmd_put, shut, shut_local}
use icbinn.Shell.Getting.{test_zero, test_pos}

-- A local descriptor on a file that is read from front to back: `left` is what is still to come.
pub record Streams {L : Type 0} (os : Local L) (fd : ℕ) (left : L → Bytes) : Type 0 where
  pub gives : (n : ℕ) (l : L) → (os.read fd n l).0 ≡ returned (take n (left l))
  pub leaves : (n : ℕ) (l : L) → left (os.read fd n l).1 ≡ drop n (left l)

write_at_nothing : (content : Bytes) (offset : ℕ) → write_at content offset [] ≡ content
unfolding write_at
write_at_nothing content offset = refl

write_at_empty : (bytes : Bytes) → write_at [] 0 bytes ≡ bytes
unfolding write_at put
write_at_empty [] = refl
write_at_empty (b ∷ bs) = refl

module _ {S L : Type 0} (icb : Stubs S) (os : Local L) (fd : ℕ) (ifd : ℤ) where
  -- the last round, which reads nothing
  last_round :
      (fuel o : ℕ) (s : Session S L)
      → (os.read fd max_data s.local).0 ≡ returned []
      → put_loop icb os fd ifd (suc fuel) o s
        ≡ some (
          pos 0,
          shut_local icb os fd
              (shut icb os ifd (record s { local = (os.read fd max_data s.local).1 })),
        )
  unfolding put_loop
  last_round fuel o s r = rw (put_loop, r) refl

  -- a round that sends what it reads
  next_round :
      (fuel o : ℕ) (bytes : Bytes) (s : Session S L)
      → (os.read fd max_data s.local).0 ≡ returned bytes
      → 0 < length bytes
      → (icbinn_pwrite icb ifd bytes (length bytes) o s.conn).0 ≡ pos (length bytes)
      → put_loop icb os fd ifd (suc fuel) o s
        ≡ put_loop icb os fd ifd fuel (o + length bytes) (record s {
          conn = (icbinn_pwrite icb ifd bytes (length bytes) o s.conn).1;
          local = (os.read fd max_data s.local).1;
        })
  unfolding put_loop
  next_round fuel o bytes s r some_bytes w =
      let a : (length bytes == 0) ≡ false = ground arith in
      let b : (length bytes == length bytes) ≡ true = ground arith in rw (put_loop, r, w, a, b) refl

module _ {W S L : Type 0} (k : Kernel W) (icb : Stubs S) (server : S → Server W)
    (carries : Carries server icb.pwrite_1 (pwrite_1_svc k)) (os : Local L) (fd : ℕ)
    (left : L → Bytes) (source : Streams os fd left) (ifd : ℤ) (content : W → Bytes)
    (file : WritesAs k ifd content)
    (closed : (c : S)
      → content (server (icbinn_close icb ifd c).1).world ≡ content (server c).world) where
  copies :
      (fuel o : ℕ) (rest : Bytes) (s : Session S L)
      → left s.local ≡ rest
      → o + length rest < 2 ^ 63
      → length rest < fuel
      → (s' : Session S L) × (put_loop icb os fd ifd fuel o s ≡ some (pos 0, s'))
        × (content (server s'.conn).world ≡ write_at (content (server s.conn).world) o rest)
  copies zero o rest s e low enough = absurd (omega arith)
  copies (suc fuel) o rest s e low enough =
      let bytes = take max_data rest in
      let n = length bytes in
      let size : n ≡ min max_data (length rest) = length-take max_data rest in
      let r : (os.read fd max_data s.local).0 ≡ returned bytes =
        source.gives max_data s.local ∙ ap (λ x. returned (take max_data x)) e in
      elim (Bool-cases (n == 0)) [
        | inl z ↦
            let none_left : length rest ≡ 0 = omega (arith, test_zero n z) in
            let empty : rest ≡ [] = drop_all 0 rest (omega arith) in
            (
              _,
              last_round icb os fd ifd fuel o s (r ∙ ap (λ x. returned (take max_data x)) empty),
              closed s.conn
                  ∙ sym (write_at_nothing (content (server s.conn).world) o)
                  ∙ ap (write_at (content (server s.conn).world) o) (sym empty),
            )
        | inr z ↦
            let some_bytes : 0 < n = test_pos n z in
            let (ret, stored) =
              pwrite-content k icb server carries ifd content bytes n o s.conn file (omega arith)
                (omega arith) in
            let (s', q, c) =
              copies fuel (o + n) (drop max_data rest)
                (record s {
                  conn = (icbinn_pwrite icb ifd bytes n o s.conn).1;
                  local = (os.read fd max_data s.local).1;
                })
                (source.leaves max_data s.local ∙ ap (drop max_data) e)
                (omega (arith, length-drop max_data rest))
                (omega (arith, length-drop max_data rest)) in
            let before = content (server s.conn).world in
            (
              s',
              next_round icb os fd ifd fuel o bytes s r some_bytes ret ∙ q,
              c
                  ∙ ap (λ x. write_at x (o + n) (drop max_data rest))
                      (stored ∙ ap (write_at before o) (take_all n bytes (omega arith)))
                  ∙ write_at-write_at before o (o + n) bytes (drop max_data rest) refl
                  ∙ ap (write_at before o) (take-append-drop max_data rest),
            )
      ]

  -- Where `cmd_put` has opened the local file, which gives `bytes`, less than 2 ^ 63 of them, from
  -- front to back, and has opened the remote file, which is then empty, and the lock that it asks
  -- for is granted, over a connection that carries PWRITE to the server's handler, to a remote
  -- file that takes every byte and keeps its content when it is closed: with fuel of more than the
  -- number of bytes, the loop ends, the command returns 0, and the remote file holds `bytes`.
  pub cmd_put-copies :
      (fuel : ℕ) (from to bytes : Bytes) (s : Session S L)
      → let (found, l) = os.open_file from rdonly s.local in
        let (opened, c1) = icbinn_open icb to (bit_or (bit_or wronly creat) trunc) s.conn in
        let (locked, c2) = icbinn_lock icb (pos fd) (pos 1) c1 in
        found ≡ returned fd
        → opened ≡ ifd
        → is_negative ifd ≡ false
        → locked ≡ pos 0
        → left l ≡ bytes
        → content (server c2).world ≡ []
        → length bytes < fuel
        → length bytes < 2 ^ 63
        → (s' : Session S L) × (cmd_put icb os fuel from to s ≡ some (pos 0, s'))
          × (content (server s'.conn).world ≡ bytes)
  unfolding cmd_put
  cmd_put-copies fuel from to bytes s found opened valid locked source_is new enough low =
      let c1 = (icbinn_open icb to (bit_or (bit_or wronly creat) trunc) s.conn).1 in
      let start : Session S L = record s {
        conn = (icbinn_lock icb (pos fd) (pos 1) c1).1;
        local = (os.open_file from rdonly s.local).1;
      } in
      let (s', q, c) = copies fuel 0 bytes start source_is (omega arith) enough in
      (
        s',
        rw (cmd_put, found, locked, opened, valid) q,
        c ∙ ap (λ x. write_at x 0 bytes) new ∙ write_at_empty bytes,
      )
