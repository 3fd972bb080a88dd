-- ===== src/Wire/Writing.antt =====
-- `icbinn_pwrite` over a connection to the PWRITE handler of a server whose descriptor is a file.
use icbinn.Common.{
  ℕ, ◌+◌, ◌%◌, ◌^◌, ◌≤◌, ◌<◌, ◌≡◌, refl, ap, sym, ◌∙◌, ℤ, pos, Bytes, some, length, take, drop,
  length-take, take-append-take, le→ltb-false, arith,
}
use icbinn.Protocol.{PwriteArgs, ok, max_data, u64_size}
use icbinn.Kernel.{Kernel, returned}
use icbinn.Kernel.RegularFile.{WritesAs, write_at, write_at-write_at}
use icbinn.Server.State.{Server}
use icbinn.Server.Files.{pwrite_1_svc}
use icbinn.Client.Stubs.{Stubs}
use icbinn.Client.Transfer.{icbinn_pwrite_worker, icbinn_pwrite, pwrite_code}
use icbinn.Client.Loop.{transfer_complete}
use icbinn.Wire.Link.{Carries}

module _ {W S : Type 0} (k : Kernel W) (icb : Stubs S) (server : S → Server W)
    (carries : Carries server icb.pwrite_1 (pwrite_1_svc k)) where
  -- the handler, for a piece that the kernel writes, whole or in part
  stored :
      (argp : PwriteArgs) (v : Server W) (m : ℕ)
      → length argp.bytes ≤ max_data
      → (k.pwrite argp.fd argp.bytes argp.offset v.world).0 ≡ returned m
      → pwrite_1_svc k argp v
        ≡ (ok tt, record v { world = (k.pwrite argp.fd argp.bytes argp.offset v.world).1 })
  unfolding pwrite_1_svc
  stored argp v m small e = rw (le→ltb-false max_data (length argp.bytes) small, e)

  -- the worker, for a piece that the kernel writes, whole or in part
  sent :
      (fd : ℤ) (buf : Bytes) (offset at n : ℕ) (s : S) (m : ℕ)
      → n ≤ max_data
      → offset + at < 2 ^ 63
      → let w = (server s).world in
        (k.pwrite fd (take n (drop at buf)) (offset + at) w).0 ≡ returned m
        → ((icbinn_pwrite_worker icb fd buf offset at n s).0 ≡ pos n)
          × ((server (icbinn_pwrite_worker icb fd buf offset at n s).1).world
              ≡ (k.pwrite fd (take n (drop at buf)) (offset + at) (server s).world).1)
  unfolding icbinn_pwrite_worker
  sent fd buf offset at n s m small low e =
      let from = (offset + at) % u64_size in
      let o : offset + at ≡ from = omega arith in
      let argp : PwriteArgs = record { fd = fd; offset = from; bytes = take n (drop at buf) } in
      let d = carries argp s in
      let q = stored argp (server s) m (omega (arith, length-take n (drop at buf))) (rw (← o) e) in
      (
        ap (pwrite_code n) (d.replied ∙ ap (λ r. some r.0) q),
        ap (λ v. v.world) (d.advanced ∙ ap (λ r. r.1) q)
            ∙ ap (λ i. (k.pwrite fd (take n (drop at buf)) i (server s).world).1) (sym o),
      )

  -- Over a connection that carries PWRITE to the server's handler, `icbinn_pwrite` of `count`
  -- bytes of the buffer, to a file that takes every byte and a range that ends below 2 ^ 63,
  -- returns `count`, and the file then holds those bytes at the offset and is otherwise as it was.
  pub pwrite-content :
      (fd : ℤ) (content : W → Bytes) (buf : Bytes) (count offset : ℕ) (s : S)
      → WritesAs k fd content
      → offset + count < 2 ^ 63
      → count ≤ length buf
      → let (ret, s') = icbinn_pwrite icb fd buf count offset s in
        (ret ≡ pos count)
        × (content (server s').world ≡ write_at (content (server s).world) offset (take count buf))
  unfolding icbinn_pwrite
  pwrite-content fd content buf count offset s file low room =
      transfer_complete (icbinn_pwrite_worker icb fd buf offset)
        (λ at t.
          content (server t).world ≡ write_at (content (server s).world) offset (take at buf))
        count
        (λ at n t inside small p.
          let bytes = take n (drop at buf) in
          let before = content (server s).world in
          let w = (server t).world in
          let q =
            sent fd buf offset at n t (length bytes) small (omega arith)
              (file.complete bytes (offset + at) w (omega arith)) in
          (
            q.0,
            ap content q.1
                ∙ file.written bytes (offset + at) w (omega arith)
                ∙ ap (λ c. write_at c (offset + at) bytes) p
                ∙ write_at-write_at before offset (offset + at) (take at buf) bytes
                    (omega (arith, length-take at buf))
                ∙ ap (write_at before offset) (take-append-take at n (at + n) buf refl),
          ))
        s (unfold write_at in refl)

  -- Over a connection that carries PWRITE to the server's handler, whatever numbers of bytes the
  -- kernel reports as written, 0 among them, `icbinn_pwrite` at a range that ends below 2 ^ 63
  -- returns `count` if no call of the kernel fails: a short write looks like a complete one.
  pub pwrite_short :
      (fd : ℤ) (buf : Bytes) (count offset : ℕ) (s : S) (reported : Bytes → ℕ → W → ℕ)
      → offset + count < 2 ^ 63
      → ((bytes : Bytes) (from : ℕ) (w : W)
          → (k.pwrite fd bytes from w).0 ≡ returned (reported bytes from w))
      → (icbinn_pwrite icb fd buf count offset s).0 ≡ pos count
  unfolding icbinn_pwrite
  pwrite_short fd buf count offset s reported low e =
      (transfer_complete (icbinn_pwrite_worker icb fd buf offset) (λ at t. Unit {0}) count
        (λ at n t inside small _.
          let bytes = take n (drop at buf) in
          let w = (server t).world in
          let q =
            sent fd buf offset at n t (reported bytes (offset + at) w) small (omega arith)
              (e bytes (offset + at) w) in
          (q.0, tt))
        s tt).0
