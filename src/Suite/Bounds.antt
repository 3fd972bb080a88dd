-- ===== src/Suite/Bounds.antt =====
-- libicbinn/test/test.c, `test_rand`: what its bounds ask of `icbinn_rand`.
use icbinn.Common.{
  ◌≡◌, refl, ℤ, pos, negsuc, minus_one, is_negative, Bytes, Bool-cases, inl, inr, le→ltb-false,
  ◌||◌, if◌then◌else◌,
}
use icbinn.Client.Stubs.{Stubs}
use icbinn.Client.Transfer.{icbinn_rand}
use icbinn.Client.Counts.{AtMost, rand-AtMost}
use icbinn.Suite.{out_of_range, test_rand, from_random, from_urandom}

out_of_range-negative : (n : ℤ) → AtMost 4 n → out_of_range n ≡ is_negative n
out_of_range-negative (pos n) few = le→ltb-false 4 n few
out_of_range-negative (negsuc n) few = refl

-- Whatever a server answers, `test_rand` returns 0 if neither of its calls of `icbinn_rand` fails,
-- and otherwise -1: no answer can exceed the bound of 4 that it tests.
pub test_rand_lem :
    {S : Type 0} (icb : Stubs S) (buf : Bytes) (s : S)
    → let (n, t) = icbinn_rand icb from_random 4 (record { buf = buf; conn = s }) in
      let (n', _) = icbinn_rand icb from_urandom 4 t in
      (test_rand icb buf s).0 ≡ (if is_negative n || is_negative n' then minus_one else pos 0)
unfolding test_rand
test_rand_lem icb buf s =
    let (n, t) = icbinn_rand icb from_random 4 (record { buf = buf; conn = s }) in
    let (n', t') = icbinn_rand icb from_urandom 4 t in
    let e = out_of_range-negative n (rand-AtMost icb from_random 4 _) in
    let e' = out_of_range-negative n' (rand-AtMost icb from_urandom 4 t) in
    elim (Bool-cases (is_negative n)) [
      | inl f ↦ rw (e, f) refl
      | inr f ↦ elim (Bool-cases (is_negative n')) [
        | inl g ↦ rw (e, f, e', g) refl
        | inr g ↦ rw (e, f, e', g) refl
      ]
    ]
