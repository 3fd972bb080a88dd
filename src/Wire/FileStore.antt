-- ===== src/Wire/FileStore.antt =====
-- A file at the server, used through the client library, against a sequence of bytes.
use icbinn.Common.{
  ℕ, ◌+◌, ◌^◌, ◌<◌, ◌≡◌, refl, ap, ◌∙◌, ℤ, pos, pos_part, Bytes, List, [], ◌∷◌, length, take, drop,
  replicate, take_all, take-append_left, arith,
}
use icbinn.Kernel.{Kernel}
use icbinn.Kernel.RegularFile.{ReadsAs, WritesAs, write_at}
use icbinn.Server.State.{Server}
use icbinn.Server.Files.{pread_1_svc, pwrite_1_svc}
use icbinn.Client.Stubs.{Stubs}
use icbinn.Client.Transfer.{icbinn_pread, icbinn_pwrite}
use icbinn.Wire.Link.{Carries}
use icbinn.Wire.Reading.{pread-content}
use icbinn.Wire.Writing.{pwrite-content}

-- What a client does with a file.
pub data Use : Type 0 where
  gets : (count offset : ℕ) → Use
  puts : (bytes : Bytes) (offset : ℕ) → Use

-- The result of a use, with the bytes that were read.
abbrev pub Answer : Type 0
Answer = ℤ × Bytes

-- the specification: the file is its content
abbrev pub on_content : Use → Bytes → Answer × Bytes
on_content (gets count offset) content =
    let bytes = take count (drop offset content) in ((pos (length bytes), bytes), content)
on_content (puts bytes offset) content = ((pos (length bytes), []), write_at content offset bytes)

-- and the same with the library's functions
module _ {S : Type 0} (icb : Stubs S) (fd : ℤ) where
  abbrev pub on_server : Use → S → Answer × S
  on_server (gets count offset) s =
      let (ret, filled) =
        icbinn_pread icb fd count offset (record { buf = replicate count 0; conn = s }) in
      ((ret, take (pos_part ret) filled.buf), filled.conn)
  on_server (puts bytes offset) s =
      let (ret, s') = icbinn_pwrite icb fd bytes (length bytes) offset s in ((ret, []), s')

abbrev pub run : {T : Type 0} → (Use → T → Answer × T) → List Use → T → List Answer × T
run step [] t = ([], t)
run step (u ∷ us) t =
    let (result, t') = step u t in let (results, t'') = run step us t' in (result ∷ results, t'')

-- Offsets are those of `off_t`.
abbrev InRange : Use → Type 0
InRange (gets count offset) = offset + count < 2 ^ 63
InRange (puts bytes offset) = offset + length bytes < 2 ^ 63

abbrev pub AllInRange : List Use → Type 0
AllInRange [] = Unit
AllInRange (u ∷ us) = InRange u × AllInRange us

module _ {W S : Type 0} (k : Kernel W) (icb : Stubs S) (server : S → Server W)
    (reads : Carries server icb.pread_1 (pread_1_svc k))
    (writes : Carries server icb.pwrite_1 (pwrite_1_svc k)) (fd : ℤ) (content : W → Bytes)
    (file : WritesAs k fd content) (readable : (w : W) → ReadsAs k fd (content w) w) where
  -- what the file holds
  abbrev holds : S → Bytes
  holds s = content (server s).world

  -- One use gives what the specification says, and leaves the file so.
  simulates :
      (u : Use) (s : S)
      → InRange u
      → ((on_server icb fd u s).0 ≡ (on_content u (holds s)).0)
        × (holds (on_server icb fd u s).1 ≡ (on_content u (holds s)).1)
  simulates (gets count offset) s low =
      let got =
        pread-content k icb server reads fd (holds s) count offset
          (record { buf = replicate count 0; conn = s }) low (readable (server s).world) in
      let bytes = take count (drop offset (holds s)) in
      let n = length bytes in
      (
        rw (got.result, got.stored)
            (ap (λ b. (pos n, b)) (take-append_left n bytes (drop n (replicate count 0)) refl)),
        ap (λ t. content t.world) got.kept,
      )
  simulates (puts bytes offset) s low =
      let (ret, written) =
        pwrite-content k icb server writes fd content bytes (length bytes) offset s file low
          (omega arith) in
      (
        ap (λ r. (r, [])) ret,
        written
            ∙ ap (λ b. write_at (holds s) offset b) (take_all (length bytes) bytes (omega arith)),
      )

  -- Over a connection that carries PREAD and PWRITE to the server's handlers, for a file that
  -- takes every byte and reads as what it holds, any sequence of `icbinn_pread` and
  -- `icbinn_pwrite` calls whose ranges end below 2 ^ 63 gives the results and the data that the
  -- same uses of a sequence of bytes give, and leaves the file with the content that they leave.
  pub run-on_content :
      (us : List Use) (s : S)
      → AllInRange us
      → ((run (on_server icb fd) us s).0 ≡ (run on_content us (holds s)).0)
        × (content (server (run (on_server icb fd) us s).1).world ≡ (run on_content us (holds s)).1)
  run-on_content [] s h = (refl, refl)
  run-on_content (u ∷ us) s (low, h) =
      let (result, left) = simulates u s low in
      let rest = rw left at (run-on_content us (on_server icb fd u s).1 h) in
      (rw (result, rest.0) refl, rest.1)
