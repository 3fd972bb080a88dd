-- ===== src/Client/Counts.antt =====
-- The number that `icbinn_pread` and `icbinn_rand` return, against the number that was asked for.
use icbinn.Common.{
  ℕ, zero, suc, ◌+◌, ◌-◌, ◌≤◌, ◌≡◌, ℤ, pos, negsuc, pos_part, is_number, Bytes, Option, none, some,
  length, ltb, negate, ◌<◌, false, ◌==◌, Bool-cases, inl, inr, if_both, arith,
}
use icbinn.Protocol.{Result, ok, error, RandRes, PreadArgs}
use icbinn.Client.Stubs.{Stubs}
use icbinn.Client.Transfer.{
  Filling, piece, received, pread_reply, rand_reply, transfer_loop, transfer, icbinn_pread_worker,
  icbinn_pread, icbinn_rand_worker, icbinn_rand,
}
use icbinn.Client.Loop.{piece-le, round, no_round}

-- At most `n`, or an error.
abbrev pub AtMost : ℕ → ℤ → Type 0
AtMost n (pos m) = m ≤ n
AtMost n (negsuc m) = Unit

AtMost-mono : (m n : ℕ) (r : ℤ) → m ≤ n → AtMost m r → AtMost n r
AtMost-mono m n (pos i) le h = omega arith
AtMost-mono m n (negsuc i) le h = tt

pos_part-le : (n : ℕ) (r : ℤ) → AtMost n r → pos_part r ≤ n
pos_part-le n (pos i) h = h
pos_part-le n (negsuc i) h = omega arith

module _ {S : Type 0} (worker : (at n : ℕ) → S → ℤ × S)
    (bounded : (at n : ℕ) (s : S) → AtMost n (worker at n s).0) where
  loop-AtMost :
      (fuel at count ret total : ℕ) (s : S)
      → ret + count ≤ total
      → AtMost total (transfer_loop worker fuel at count ret s).0
  loop-AtMost zero at count ret total s room = rw (no_round worker at count ret s) (omega arith)
  loop-AtMost (suc fuel) at count ret total s room =
      let n = piece count in
      let (semi_ret, s') = worker at n s in
      let few : pos_part semi_ret ≤ n = pos_part-le n semi_ret (bounded at n s) in
      let fits : ret + n ≤ total = omega (arith, piece-le count) in
      rw (round worker fuel at count ret s) (
        if_both (λ (r : ℤ × S). AtMost total r.0) (count == 0) (omega arith)
          (if_both (λ (r : ℤ × S). AtMost total r.0) (is_number semi_ret n)
            (loop-AtMost fuel (at + n) (count - n) (ret + pos_part semi_ret) total s'
              (omega (arith, piece-le count)))
            (if_both (λ (r : ℤ × S). AtMost total r.0) (ret + pos_part semi_ret == 0)
              (AtMost-mono n total semi_ret (omega arith) (bounded at n s)) (omega arith))))

  pub transfer-AtMost : (count : ℕ) (s : S) → AtMost count (transfer worker count s).0
  unfolding transfer
  transfer-AtMost count s = loop-AtMost count 0 count 0 count s (omega arith)

received-AtMost : (n : ℕ) (bytes : Bytes) → AtMost n (received n bytes).0
received-AtMost n bytes = elim (Bool-cases (ltb n (length bytes))) [
  | inl e ↦ rw e tt
  | inr e ↦ rw e (ground arith)
]

-- An answer of the server that brings data, or an error number that is not negative.
abbrev pub IsPlain : {A : Type 0} → Option (Result A) → Type 0
IsPlain none = Unit {0}
IsPlain (some (ok a)) = Unit
IsPlain (some (error (pos errno))) = Unit
IsPlain (some (error (negsuc n))) = ⊥

negate-AtMost : (n errno : ℕ) → AtMost n (negate (pos errno))
negate-AtMost n zero = omega arith
negate-AtMost n (suc errno) = tt

pread_reply-AtMost :
    (n : ℕ) (res : Option (Result Bytes)) → IsPlain res → AtMost n (pread_reply n res).0
unfolding pread_reply
pread_reply-AtMost n none h = tt
pread_reply-AtMost n (some (ok bytes)) h = received-AtMost n bytes
pread_reply-AtMost n (some (error (pos errno))) h = negate-AtMost n errno
pread_reply-AtMost n (some (error (negsuc m))) h = absurd h

rand_reply-AtMost : (n : ℕ) (res : Option RandRes) → AtMost n (rand_reply n res).0
unfolding rand_reply
rand_reply-AtMost n none = tt
rand_reply-AtMost n (some none) = tt
rand_reply-AtMost n (some (some bytes)) = received-AtMost n bytes

module _ {S : Type 0} (icb : Stubs S) where
  -- Whatever a server answers, `icbinn_rand` of `count` bytes reports at most `count`, or an error.
  pub rand-AtMost :
      (src : ℤ) (count : ℕ) (s : Filling S) → AtMost count (icbinn_rand icb src count s).0
  unfolding icbinn_rand
  rand-AtMost src count =
      transfer-AtMost (icbinn_rand_worker icb src)
        (λ at n s. unfold icbinn_rand_worker in rand_reply-AtMost n _) count

  -- Where no answer carries a negative error number, `icbinn_pread` of `count` bytes reports at
  -- most `count`, or an error.
  pub pread-AtMost :
      ((a : PreadArgs) (s : S) → IsPlain (icb.pread_1 a s).0)
      → (fd : ℤ) (count offset : ℕ) (s : Filling S)
      → AtMost count (icbinn_pread icb fd count offset s).0
  unfolding icbinn_pread
  pread-AtMost plain fd count offset =
      transfer-AtMost (icbinn_pread_worker icb fd offset)
        (λ at n s. unfold icbinn_pread_worker in pread_reply-AtMost n _ (plain _ s.conn)) count

  -- A server that answers each PREAD with an error and the negative number -(`over` + 1) makes
  -- `icbinn_pread` of `count` bytes, 1 to `over`, report `over` + 1 bytes, more than there is room
  -- for, while nothing is stored.
  pub pread_overcount :
      (fd : ℤ) (count offset over : ℕ) (s : Filling S)
      → 0 < count
      → count ≤ over
      → ((a : PreadArgs) → (icb.pread_1 a s.conn).0 ≡ some (error (negsuc over)))
      → let (ret, t) = icbinn_pread icb fd count offset s in
        (ret ≡ pos (suc over)) × (t.buf ≡ s.buf)
  unfolding icbinn_pread transfer icbinn_pread_worker pread_reply
  pread_overcount fd zero offset over s some_bytes beyond answered = absurd (omega arith)
  pread_overcount fd (suc count) offset over s some_bytes beyond answered =
      let n = piece (suc count) in
      let differs : (suc over == n) ≡ false = ground (arith, piece-le (suc count)) in
      rw (round (icbinn_pread_worker icb fd offset) count 0 (suc count) 0 s, answered _, differs)
        (ground arith, ground arith)
