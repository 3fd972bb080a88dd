-- ===== src/Client/Fetch.antt =====
-- A transfer into memory from a source of bytes: the loop of libicbinn/src/pread.c, for any worker
-- that fetches each piece from the place it asks for.
use icbinn.Common.{
  ℕ, zero, suc, ◌+◌, ◌-◌, ◌≤◌, ◌≡◌, ◌≢◌, refl, ap, sym, ◌∙◌, inl, inr, ℤ, pos, Bytes, ◌++◌, length,
  take, drop, memcpy, length-take, length-drop, take_all, take-append-take, memcpy-behind, ◌==◌,
  Bool-cases, ==_iff, if◌then◌else◌, subst, min, arith,
}
use icbinn.Protocol.{max_data}
use icbinn.Client.Transfer.{Filling, piece, transfer_loop, transfer}
use icbinn.Client.Loop.{no_round, round, piece-le, piece-le-max_data, piece_pos}

-- A worker fetches from `source` if it stores the bytes that the source has at `at`, up to `n` of
-- them, and returns their number; `P` is what is known of the connection.
abbrev pub Fetches :
    {S : Type 0}
    → (S → Type 0)
    → Bytes
    → ((at n : ℕ) → Filling S → ℤ × Filling S)
    → (at n : ℕ) → Filling S
    → Type 0
Fetches {S} P source worker at n s =
    (conn : S) × (worker at n s ≡ (
      pos (length (take n (drop at source))),
      record { buf = memcpy s.buf at (take n (drop at source)); conn = conn },
    ))
    × P conn

-- What a transfer leaves: the bytes that the source has, in front of the old buffer.
pub record Got {S : Type 0} (P : S → Type 0) (source : Bytes) (total : ℕ) (before : Bytes)
    (out : ℤ × Filling S) : Type 0 where
  pub result : out.0 ≡ pos (length (take total source))
  pub stored : out.1.buf ≡ take total source ++ drop (length (take total source)) before
  pub kept : P out.1.conn

-- The result of a transfer that stops: `ret ? ret : semi_ret`.
one_result :
    {S : Type 0} (at m : ℕ) (s : Filling S)
    → ◌≡◌ {A = ℤ × Filling S}
        (if at + m == 0 then (pos m, s) else (pos (at + m), s))
        (pos (at + m), s)
one_result at m s = elim (Bool-cases (at + m == 0)) [
  | inl z ↦ rw z (ap (λ (i : ℕ). (pos i, s)) (ground arith))
  | inr nz ↦ rw nz
]

module _ {S : Type 0} (P : S → Type 0) (source : Bytes) (total : ℕ)
    (worker : (at n : ℕ) → Filling S → ℤ × Filling S)
    (fetch : (at n : ℕ) (s : Filling S)
      → at + n ≤ total
      → n ≤ max_data
      → P s.conn
      → Fetches P source worker at n s) where
  -- The buffer after one more piece.
  one_more :
      (at n : ℕ) (before buf : Bytes)
      → at ≤ length source
      → buf ≡ take at source ++ drop at before
      → memcpy buf at (take n (drop at source))
        ≡ take (at + n) source ++ drop (length (take (at + n) source)) before
  one_more at n before buf there b =
      ap (λ l. memcpy l at (take n (drop at source))) b
      ∙ memcpy-behind (take at source) (take n (drop at source)) before at
          (omega (arith, length-take at source))
      ∙ ap (λ l. l ++ drop (length l) before) (take-append-take at n (at + n) source refl)

  -- The loop ends with everything that was asked for.
  finished :
      (at : ℕ) (before : Bytes) (s : Filling S)
      → at ≡ total
      → at ≤ length source
      → s.buf ≡ take at source ++ drop at before
      → P s.conn
      → Got P source total before (pos at, s)
  finished at before s e there b p =
      let l : at ≡ length (take total source) = omega (arith, length-take total source) in
      record {
        result = ap pos l;
        stored =
            b
            ∙ ap (λ i. take i source ++ drop at before) e
            ∙ ap (λ i. take total source ++ drop i before) l;
        kept = p;
      }

  -- The loop ends early, since the source has no more.
  short_of :
      (at n : ℕ) (before : Bytes) (s : Filling S)
      → at + n ≤ total
      → length source ≤ at + n
      → at ≤ length source
      → s.buf ≡ take (at + n) source ++ drop (length (take (at + n) source)) before
      → P s.conn
      → Got P source total before (pos (at + length (take n (drop at source))), s)
  short_of at n before s inside ends there b p =
      let all : take (at + n) source ≡ take total source =
        take_all (at + n) source ends ∙ sym (take_all total source (omega arith)) in
      record {
        result = ap pos (
            omega (
              arith,
              length-take n (drop at source),
              length-drop at source,
              length-take total source,
            ));
        stored = b ∙ ap (λ l. l ++ drop (length l) before) all;
        kept = p;
      }

  fetch_loop :
      (fuel at count : ℕ) (before : Bytes) (s : Filling S)
      → at + count ≡ total
      → count ≤ fuel
      → at ≤ length source
      → s.buf ≡ take at source ++ drop at before
      → P s.conn
      → Got P source total before (transfer_loop worker fuel at count at s)
  fetch_loop zero at count before s e enough there b p =
      rw (no_round worker at count at s) (finished at before s (omega arith) there b p)
  fetch_loop (suc fuel) at count before s e enough there b p =
      let n = piece count in
      let (conn, q, p') =
        fetch at n s (omega (arith, piece-le count)) (piece-le-max_data count) p in
      let m = length (take n (drop at source)) in
      let l : m ≡ min n (length source - at) =
        omega (arith, length-take n (drop at source), length-drop at source) in
      let s' : Filling S = record {
        buf = memcpy s.buf at (take n (drop at source));
        conn = conn;
      } in
      let stored = one_more at n before s.buf there b in
      elim (Bool-cases (count == 0)) [
        | inl empty ↦
            rw (round worker fuel at count at s, empty)
              (finished at before s (ground arith) there b p)
        | inr more ↦ elim (Bool-cases (m == n)) [
          | inl full ↦
              rw (round worker fuel at count at s, more, q, full)
                (subst
                  (λ r.
                    Got P source total before (transfer_loop worker fuel (at + n) (count - n) r s'))
                  (omega (arith, (==_iff m n).0 full))
                  (fetch_loop fuel (at + n) (count - n) before s' (omega (arith, piece-le count))
                    (omega (arith, piece_pos count (ground arith)))
                    (omega (arith, l, (==_iff m n).0 full))
                    (stored
                      ∙ ap (λ i. take (at + n) source ++ drop i before)
                          (omega (arith, l, (==_iff m n).0 full, length-take (at + n) source)))
                    p'))
          | inr short ↦
              let ne : m ≢ n = ground arith in
              rw (round worker fuel at count at s, more, q, short)
                (rw (one_result at m s') (
                  short_of at n before s' (omega (arith, piece-le count)) (omega (arith, l, ne))
                    there stored p'))
        ]
      ]

  -- A transfer stores all that its source has, up to what was asked for, and returns how much.
  pub transfer_fetches :
      (s : Filling S) → P s.conn → Got P source total s.buf (transfer worker total s)
  unfolding transfer
  transfer_fetches s p =
      fetch_loop total 0 total s.buf s (omega arith) (omega arith) (omega arith) refl p
