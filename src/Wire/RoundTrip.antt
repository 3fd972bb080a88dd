-- ===== src/Wire/RoundTrip.antt =====
-- `icbinn_pwrite` and then `icbinn_pread` of the same place.
use icbinn.Common.{
  ℕ, ◌+◌, ◌^◌, ◌≤◌, ◌<◌, ◌≡◌, ap, ◌∙◌, ℤ, pos, Bytes, ◌++◌, length, take, drop, length-take, subst,
  arith,
}
use icbinn.Kernel.{Kernel}
use icbinn.Kernel.RegularFile.{ReadsAs, WritesAs, write_at, write_at_read}
use icbinn.Server.State.{Server}
use icbinn.Server.Files.{pread_1_svc, pwrite_1_svc}
use icbinn.Client.Stubs.{Stubs}
use icbinn.Client.Transfer.{icbinn_pread, icbinn_pwrite}
use icbinn.Wire.Link.{Carries}
use icbinn.Wire.Reading.{pread-content}
use icbinn.Wire.Writing.{pwrite-content}

module _ {W S : Type 0} (k : Kernel W) (icb : Stubs S) (server : S → Server W)
    (reads : Carries server icb.pread_1 (pread_1_svc k))
    (writes : Carries server icb.pwrite_1 (pwrite_1_svc k)) where
  -- Data written by `icbinn_pwrite` and read by `icbinn_pread` at the same offset and of the same
  -- length come back: the result is the length, the data stand at the front of the buffer, and the
  -- rest of the buffer is kept. Conditions: the connection carries PREAD and PWRITE to the
  -- server's handlers, the descriptor is a file that takes every byte and reads as what it holds,
  -- the data are there in the caller's buffer, and the end of the range is below 2 ^ 63.
  pub pread-pwrite :
      (fd : ℤ) (content : W → Bytes) (buf into : Bytes) (count offset : ℕ) (s : S)
      → WritesAs k fd content
      → ((w : W) → ReadsAs k fd (content w) w)
      → offset + count < 2 ^ 63
      → count ≤ length buf
      → let s' = (icbinn_pwrite icb fd buf count offset s).1 in
        let (ret, filled) = icbinn_pread icb fd count offset (record { buf = into; conn = s' }) in
        (ret ≡ pos count) × (filled.buf ≡ take count buf ++ drop count into)
  pread-pwrite fd content buf into count offset s file readable low room =
      let bytes = take count buf in
      let s' = (icbinn_pwrite icb fd buf count offset s).1 in
      let w' = (server s').world in
      let written =
        (pwrite-content k icb server writes fd content buf count offset s file low room).1 in
      let got =
        pread-content k icb server reads fd (content w') count offset
          (record { buf = into; conn = s' }) low (readable w') in
      let l : length bytes ≡ count = omega (arith, length-take count buf) in
      let back : take count (drop offset (content w')) ≡ bytes =
        ap (λ c. take count (drop offset c)) written
        ∙ subst
            (λ n. take n (drop offset (write_at (content (server s).world) offset bytes)) ≡ bytes) l
            (write_at_read (content (server s).world) offset bytes) in
      (
        got.result ∙ ap (λ b. pos (length b)) back ∙ ap pos l,
        got.stored ∙ ap (λ b. b ++ drop (length b) into) back ∙ ap (λ n. bytes ++ drop n into) l,
      )
