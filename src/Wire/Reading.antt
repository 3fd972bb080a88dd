-- ===== src/Wire/Reading.antt =====
-- `icbinn_pread` over a connection to the PREAD handler of a server whose descriptor is a file.
use icbinn.Common.{
  ℕ, ◌+◌, ◌%◌, ◌^◌, ◌≤◌, ◌<◌, ◌≡◌, refl, ap, sym, ◌∙◌, ℤ, pos, Bytes, some, length, take, drop,
  memcpy, length-take, drop-drop, le→ltb-false, arith,
}
use icbinn.Protocol.{PreadArgs, ok, max_data, u64_size}
use icbinn.Kernel.{Kernel}
use icbinn.Kernel.RegularFile.{ReadsAs}
use icbinn.Server.State.{Server}
use icbinn.Server.Files.{pread_1_svc}
use icbinn.Client.Stubs.{Stubs}
use icbinn.Client.Transfer.{Filling, icbinn_pread_worker, icbinn_pread}
use icbinn.Client.Fetch.{Fetches, Got, transfer_fetches}
use icbinn.Wire.Link.{Carries}

-- What the worker does with a reply that carries at most the bytes that were asked for.
worker_stores :
    {S : Type 0} (icb : Stubs S) (fd : ℤ) (offset at n : ℕ) (s : Filling S) (bytes : Bytes)
    → (icb.pread_1 (record { fd = fd; offset = (offset + at) % u64_size; count = n }) s.conn).0
      ≡ some (ok bytes)
    → length bytes ≤ n
    → icbinn_pread_worker icb fd offset at n s ≡ (
      pos (length bytes),
      record {
        buf = memcpy s.buf at bytes;
        conn =
            (icb.pread_1
              (record { fd = fd; offset = (offset + at) % u64_size; count = n })
              s.conn).1;
      },
    )
unfolding icbinn_pread_worker
worker_stores icb fd offset at n s bytes e fits = rw (e, le→ltb-false n (length bytes) fits)

module _ {W S : Type 0} (k : Kernel W) (icb : Stubs S) (server : S → Server W)
    (carries : Carries server icb.pread_1 (pread_1_svc k)) where
  -- the handler, for a piece
  served :
      (fd : ℤ) (content : Bytes) (n from : ℕ) (v : Server W)
      → n ≤ max_data
      → from < 2 ^ 63
      → ReadsAs k fd content v.world
      → pread_1_svc k (record { fd = fd; offset = from; count = n }) v
        ≡ (ok (take n (drop from content)), v)
  unfolding pread_1_svc
  served fd content n from v small low h = ground (arith, h n from low)

  -- the worker, for a piece; the server's whole state stays as it is
  fetched :
      (fd : ℤ) (content : Bytes) (offset at n : ℕ) (s : Filling S) (v : Server W)
      → n ≤ max_data
      → offset + at < 2 ^ 63
      → ReadsAs k fd content v.world
      → server s.conn ≡ v
      → Fetches
          (λ conn. server conn ≡ v)
          (drop offset content)
          (icbinn_pread_worker icb fd offset)
          at
          n
          s
  fetched fd content offset at n s v small low h same =
      let from = (offset + at) % u64_size in
      let bytes = take n (drop at (drop offset content)) in
      let argp : PreadArgs = record { fd = fd; offset = from; count = n } in
      let d = carries argp s.conn in
      let e : drop from content ≡ drop at (drop offset content) =
        ap (λ i. drop i content) (omega arith)
        ∙ sym (drop-drop offset at (offset + at) content refl) in
      let q : pread_1_svc k argp (server s.conn) ≡ (ok bytes, v) =
        rw (same, ← e) (served fd content n from v small (omega arith) h) in
      (
        (icb.pread_1 argp s.conn).1,
        worker_stores icb fd offset at n s bytes (d.replied ∙ ap (λ r. some r.0) q)
            (omega (arith, length-take n (drop at (drop offset content)))),
        d.advanced ∙ ap (λ r. r.1) q,
      )

  -- Over a connection that carries PREAD to the server's handler, `icbinn_pread` of a file at a
  -- range that ends below 2 ^ 63 returns as many bytes as the file has there, up to `count`,
  -- whatever the number of pieces. Those bytes stand at the front of the buffer; the rest of the
  -- buffer and the server are as they were.
  pub pread-content :
      (fd : ℤ) (content : Bytes) (count offset : ℕ) (s : Filling S)
      → offset + count < 2 ^ 63
      → ReadsAs k fd content (server s.conn).world
      → Got
          (λ conn. server conn ≡ server s.conn)
          (drop offset content)
          count
          s.buf
          (icbinn_pread icb fd count offset s)
  unfolding icbinn_pread
  pread-content fd content count offset s low h =
      transfer_fetches (λ conn. server conn ≡ server s.conn) (drop offset content) count
        (icbinn_pread_worker icb fd offset)
        (λ at n t inside small same.
          fetched fd content offset at n t (server s.conn) small (omega arith) h same)
        s refl
