-- ===== src/Client/Bounds.antt =====
-- The caller's buffer of `icbinn_pread` and `icbinn_rand`: which bytes are written.
use icbinn.Common.{
  ℕ, ◌+◌, ◌≤◌, ◌≡◌, refl, ℤ, Bytes, Option, none, some, length, drop, memcpy, length-memcpy,
  drop-memcpy, arith,
}
use icbinn.Protocol.{Result, ok, error, RandRes}
use icbinn.Client.Stubs.{Stubs}
use icbinn.Client.Transfer.{
  Filling, pread_reply, rand_reply, icbinn_pread_worker, icbinn_pread, icbinn_rand_worker,
  icbinn_rand,
}
use icbinn.Client.Loop.{transfer_inv}

pub pread_reply-le : (n : ℕ) (res : Option (Result Bytes)) → length (pread_reply n res).1 ≤ n
unfolding pread_reply
pread_reply-le n none = omega arith
pread_reply-le n (some (error errno_code)) = omega arith
pread_reply-le n (some (ok bytes)) = ground arith

pub rand_reply-le : (n : ℕ) (res : Option RandRes) → length (rand_reply n res).1 ≤ n
unfolding rand_reply
rand_reply-le n none = omega arith
rand_reply-le n (some none) = omega arith
rand_reply-le n (some (some bytes)) = ground arith

-- The buffer has its length, and what it held behind its first `count` bytes.
pub record IsKept (count : ℕ) (before after : Bytes) : Type 0 where
  pub length_kept : length after ≡ length before
  pub rest_kept : drop count after ≡ drop count before

memcpy-IsKept :
    (count : ℕ) (before buf : Bytes) (at : ℕ) (bytes : Bytes)
    → count ≤ length before
    → at + length bytes ≤ count
    → IsKept count before buf
    → IsKept count before (memcpy buf at bytes)
memcpy-IsKept count before buf at bytes room fits h =
    let l : length buf ≡ length before = h.length_kept in
    record {
      length_kept = omega (arith, length-memcpy buf at bytes (omega arith));
      rest_kept = rw (drop-memcpy count buf at bytes fits (omega arith)) h.rest_kept;
    }

module _ {S : Type 0} (icb : Stubs S) where
  -- Whatever a server answers, `icbinn_pread` of `count` bytes, into a buffer that has as many,
  -- keeps the length of the buffer and everything behind the first `count` bytes.
  pub pread-IsKept :
      (fd : ℤ) (count offset : ℕ) (s : Filling S)
      → count ≤ length s.buf
      → IsKept count s.buf (icbinn_pread icb fd count offset s).1.buf
  unfolding icbinn_pread
  pread-IsKept fd count offset s room =
      transfer_inv (icbinn_pread_worker icb fd offset) (λ (t : Filling S). IsKept count s.buf t.buf)
        count
        (λ at n t inside _ h.
          unfold icbinn_pread_worker in
          memcpy-IsKept count s.buf t.buf at _ room
            (omega (arith, pread_reply-le n (icb.pread_1 _ t.conn).0)) h)
        s (record { length_kept = refl; rest_kept = refl })

  -- Whatever a server answers, `icbinn_rand` of `count` bytes, into a buffer that has as many,
  -- keeps the length of the buffer and everything behind the first `count` bytes.
  pub rand-IsKept :
      (src : ℤ) (count : ℕ) (s : Filling S)
      → count ≤ length s.buf
      → IsKept count s.buf (icbinn_rand icb src count s).1.buf
  unfolding icbinn_rand
  rand-IsKept src count s room =
      transfer_inv (icbinn_rand_worker icb src) (λ (t : Filling S). IsKept count s.buf t.buf) count
        (λ at n t inside _ h.
          unfold icbinn_rand_worker in
          memcpy-IsKept count s.buf t.buf at _ room
            (omega (arith, rand_reply-le n (icb.rand_1 _ t.conn).0)) h)
        s (record { length_kept = refl; rest_kept = refl })
