-- ===== src/Client/Transfer.antt =====
-- libicbinn/src/pread.c, pwrite.c and rand.c: transfers in pieces of at most ICBINN_MAXDATA bytes.
use icbinn.Common.{
  ℕ, zero, suc, ◌+◌, ◌-◌, ◌%◌, ℤ, pos, minus_one, pos_part, negate, is_number, Bytes, Option, none,
  some, [], ltb, ◌==◌, length, take, drop, memcpy, if◌then◌else◌,
}
use icbinn.Protocol.{Result, ok, error, ErrnoStat, RandRes, max_data, u64_size}
use icbinn.Client.Stubs.{Stubs}

-- `to_read`
abbrev pub piece : ℕ → ℕ
piece count = if ltb max_data count then max_data else count

-- The loop that `icbinn_pread`, `icbinn_pwrite` and `icbinn_rand` are written with. `worker at n`
-- moves `n` bytes at a distance of `at` from the start, where the code adds to `offset` and `buf`.
-- Each round moves at least one byte, so the first `count` serves as the fuel. In the comparison
-- `semi_ret != to_read` a negative result becomes a number beyond every `to_read`.
module _ {S : Type 0} (worker : (at n : ℕ) → S → ℤ × S) where
  unfoldable pub transfer_loop : (fuel at count ret : ℕ) → S → ℤ × S
  transfer_loop zero at count ret s = (pos ret, s)
  transfer_loop (suc fuel) at count ret s =
      let n = piece count in
      let (semi_ret, s') = worker at n s in
      let ret' = ret + pos_part semi_ret in
      let rest = transfer_loop fuel (at + n) (count - n) ret' s' in
      if count == 0
      then (pos ret, s)
      else if is_number semi_ret n
      then rest
      else if ret' == 0
      then (semi_ret, s')
      else (pos ret', s')

  unfoldable pub transfer : (count : ℕ) → S → ℤ × S
  unfolding transfer_loop
  transfer count = transfer_loop count 0 count 0

-- The state of a transfer into memory: the caller's buffer and the connection.
pub record Filling (S : Type 0) : Type 0 where
  pub buf : Bytes
  pub conn : S

-- What the workers of `icbinn_pread` and `icbinn_rand` make of a reply: the result, and the bytes
-- copied to the buffer. A reply of more bytes than were asked for is refused.
abbrev pub received : ℕ → Bytes → ℤ × Bytes
received count bytes =
    if ltb count (length bytes) then (minus_one, []) else (pos (length bytes), bytes)

unfoldable pub pread_reply : ℕ → Option (Result Bytes) → ℤ × Bytes
pread_reply count none = (minus_one, [])
pread_reply count (some (error errno_code)) = (negate errno_code, [])
pread_reply count (some (ok bytes)) = received count bytes

unfoldable pub rand_reply : ℕ → Option RandRes → ℤ × Bytes
rand_reply count none = (minus_one, [])
rand_reply count (some none) = (minus_one, [])
rand_reply count (some (some bytes)) = received count bytes

unfoldable pub pwrite_code : ℕ → Option ErrnoStat → ℤ
pwrite_code count none = minus_one
pwrite_code count (some (error errno_code)) = negate errno_code
pwrite_code count (some (ok _)) = pos count

module _ {S : Type 0} (icb : Stubs S) where
  unfoldable pub icbinn_pread_worker : ℤ → (offset : ℕ) → (at n : ℕ) → Filling S → ℤ × Filling S
  unfolding pread_reply
  icbinn_pread_worker fd offset at n s =
      let (res, conn) =
        icb.pread_1 (record { fd = fd; offset = (offset + at) % u64_size; count = n }) s.conn in
      let (ret, bytes) = pread_reply n res in
      (ret, record { buf = memcpy s.buf at bytes; conn = conn })

  unfoldable pub icbinn_pread : ℤ → (count offset : ℕ) → Filling S → ℤ × Filling S
  unfolding icbinn_pread_worker transfer
  icbinn_pread fd count offset = transfer (icbinn_pread_worker fd offset) count

  unfoldable pub icbinn_pwrite_worker : ℤ → Bytes → (offset : ℕ) → (at n : ℕ) → S → ℤ × S
  unfolding pwrite_code
  icbinn_pwrite_worker fd buf offset at n s =
      let (res, s') =
        icb.pwrite_1
          (record { fd = fd; offset = (offset + at) % u64_size; bytes = take n (drop at buf) }) s in
      (pwrite_code n res, s')

  unfoldable pub icbinn_pwrite : ℤ → Bytes → (count offset : ℕ) → S → ℤ × S
  unfolding icbinn_pwrite_worker transfer
  icbinn_pwrite fd buf count offset = transfer (icbinn_pwrite_worker fd buf offset) count

  unfoldable pub icbinn_rand_worker : (src : ℤ) → (at n : ℕ) → Filling S → ℤ × Filling S
  unfolding rand_reply
  icbinn_rand_worker src at n s =
      let (res, conn) = icb.rand_1 (record { count = n; src = src }) s.conn in
      let (ret, bytes) = rand_reply n res in
      (ret, record { buf = memcpy s.buf at bytes; conn = conn })

  unfoldable pub icbinn_rand : (src : ℤ) → (count : ℕ) → Filling S → ℤ × Filling S
  unfolding icbinn_rand_worker transfer
  icbinn_rand src count = transfer (icbinn_rand_worker src) count
