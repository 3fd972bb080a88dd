-- ===== src/Client/Loop.antt =====
-- The transfer loop of libicbinn/src/pread.c, pwrite.c and rand.c, for any worker.
use icbinn.Common.{
  ℕ, zero, suc, ◌+◌, ◌-◌, ◌≤◌, ◌<◌, ◌≡◌, refl, ℤ, ◌==◌, is_number, pos, pos_part, if_both, inl, inr,
  Bool-cases, ==_iff, ap, subst, arith, if◌then◌else◌,
}
use icbinn.Protocol.{max_data}
use icbinn.Client.Transfer.{piece, transfer_loop, transfer}

pub piece-le : (count : ℕ) → piece count ≤ count
piece-le count = ground arith

pub piece-le-max_data : (count : ℕ) → piece count ≤ max_data
piece-le-max_data count = ground arith

pub piece_pos : (count : ℕ) → 0 < count → 0 < piece count
piece_pos count h = ground arith

module _ {S : Type 0} (worker : (at n : ℕ) → S → ℤ × S) where
  pub no_round :
      (at count ret : ℕ) (s : S) → transfer_loop worker zero at count ret s ≡ (pos ret, s)
  unfolding transfer_loop
  no_round at count ret s = refl

  -- One round of the loop, with the recursive call as a value.
  pub round :
      (fuel at count ret : ℕ) (s : S)
      → transfer_loop worker (suc fuel) at count ret s ≡ (
          if count == 0
          then (pos ret, s)
          else if is_number (worker at (piece count) s).0 (piece count)
          then transfer_loop worker fuel
              (at + piece count)
              (count - piece count)
              (ret + pos_part (worker at (piece count) s).0)
              (worker at (piece count) s).1
          else if ret + pos_part (worker at (piece count) s).0 == 0
          then worker at (piece count) s
          else (pos (ret + pos_part (worker at (piece count) s).0), (worker at (piece count) s).1))
  unfolding transfer_loop
  round fuel at count ret s = refl

  -- The transfer loop ends within `count` rounds, for any worker: every fuel from `count` on gives
  -- the same result and state.
  pub transfer_loop_fuel :
      (f g at count ret : ℕ) (s : S)
      → count ≤ f
      → count ≤ g
      → transfer_loop worker f at count ret s ≡ transfer_loop worker g at count ret s
  unfolding transfer_loop
  transfer_loop_fuel zero zero at count ret s hf hg = refl
  transfer_loop_fuel zero (suc g) at count ret s hf hg = ground arith
  transfer_loop_fuel (suc f) zero at count ret s hf hg = ground arith
  transfer_loop_fuel (suc f) (suc g) at count ret s hf hg = ground (
    arith,
    transfer_loop_fuel f g (at + piece count) (count - piece count)
        (ret + pos_part (worker at (piece count) s).0) (worker at (piece count) s).1,
  )

  module _ {ℓ} (P : S → Type ℓ) (total : ℕ)
      (keep : (at n : ℕ) (s : S) → at + n ≤ total → n ≤ max_data → P s → P (worker at n s).1) where
    transfer_loop_inv :
        (fuel at count ret : ℕ) (s : S)
        → at + count ≡ total
        → P s
        → P (transfer_loop worker fuel at count ret s).1
    unfolding transfer_loop
    transfer_loop_inv zero at count ret s e h = h
    transfer_loop_inv (suc fuel) at count ret s e h =
        let n = piece count in
        let (semi_ret, s') = worker at n s in
        let h' : P s' = keep at n s (omega (arith, piece-le count)) (piece-le-max_data count) h in
        if_both (λ (r : ℤ × S). P r.1) (count == 0) h
          (if_both (λ (r : ℤ × S). P r.1) (is_number semi_ret n)
            (transfer_loop_inv fuel (at + n) (count - n) (ret + pos_part semi_ret) s'
              (omega (arith, piece-le count)) h')
            (if_both (λ (r : ℤ × S). P r.1) (ret + pos_part semi_ret == 0) h' h'))

    -- What every round keeps, the transfer keeps.
    pub transfer_inv : (s : S) → P s → P (transfer worker total s).1
    unfolding transfer
    transfer_inv s h = transfer_loop_inv total 0 total 0 s (omega arith) h

module _ {ℓ} {S : Type 0} (worker : (at n : ℕ) → S → ℤ × S) (P : ℕ → S → Type ℓ) (total : ℕ)
    (step : (at n : ℕ) (s : S)
      → at + n ≤ total
      → n ≤ max_data
      → P at s
      → ((worker at n s).0 ≡ pos n) × P (at + n) (worker at n s).1) where
  complete_loop :
      (fuel at count : ℕ) (s : S)
      → at + count ≡ total
      → count ≤ fuel
      → P at s
      → let (ret, s') = transfer_loop worker fuel at count at s in (ret ≡ pos total) × P total s'
  complete_loop zero at count s e enough p =
      let end : at ≡ total = omega arith in
      rw (no_round worker at count at s) (ap pos end, subst (λ i. P i s) end p)
  complete_loop (suc fuel) at count s e enough p =
      let n = piece count in
      let (semi_ret, s') = worker at n s in
      let (full, p') = step at n s (omega (arith, piece-le count)) (piece-le-max_data count) p in
      elim (Bool-cases (count == 0)) [
        | inl z ↦
            let end : at ≡ total = omega (arith, (==_iff count 0).0 z) in
            rw (round worker fuel at count at s, z) (ap pos end, subst (λ i. P i s) end p)
        | inr more ↦
            rw (round worker fuel at count at s, more, full, (==_iff n n).1 refl)
              (complete_loop fuel (at + n) (count - n) s' (omega (arith, piece-le count))
                (omega (arith, piece_pos count (ground arith))) p')
      ]

  -- If the worker moves every piece whole, the transfer moves everything.
  pub transfer_complete :
      (s : S) → P 0 s → let (ret, s') = transfer worker total s in (ret ≡ pos total) × P total s'
  unfolding transfer
  transfer_complete s p = complete_loop total 0 total s (omega arith) (omega arith) p
