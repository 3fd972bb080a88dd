-- ===== src/Server/Growth.antt =====
-- How a listing of READDIR grows, a name of the stream at a time.
use icbinn.Common.{
  ℕ, suc, ◌+◌, ◌-◌, ◌≤◌, ◌<◌, ◌≡◌, ◌∙◌, true, false, List, [], ◌∷◌, ◌++◌, append_assoc, append-nil,
  drop-nil, take-nil, length, take, drop, ltb, if◌then◌else◌, arith,
}
use icbinn.Protocol.{Entry}
use icbinn.Server.State.{Run, done}
use icbinn.Server.Readdir.{Scan}

-- What the loop has added to `s` when it ends in `out`: at most as many entries as are still
-- wanted, behind those that are still to be passed over; and `dp` is NULL if the stream ended while
-- entries were wanted.
pub record Page {W : Type 0} (offset count : ℕ) (seen : List Entry) (s out : Scan W) : Type 0 where
  pub added : out.entries ≡ s.entries ++ take (count - s.dcount) (drop (offset - s.doffset) seen)
  pub ended : out.dp_null ≡ (
      if ltb s.dcount count
      then ltb (s.dcount + length (drop (offset - s.doffset) seen)) count
      else s.dp_null)

abbrev pub Paged : {W : Type 0} → ℕ → ℕ → List Entry → Scan W → Run (Scan W) → Type 0
Paged {W} offset count seen s m = (out : Scan W) × (m ≡ done out) × Page offset count seen s out

module _ {W : Type 0} (offset count : ℕ) (seen : List Entry) (s : Scan W) where
  -- nothing is wanted any more
  pub Page-full : ltb s.dcount count ≡ false → Page offset count seen s s
  Page-full h =
      let z : count - s.dcount ≡ 0 = ground arith in
      record { added = rw z (simp append-nil); ended = rw h }

  -- the stream has ended
  pub Page-end : ltb s.dcount count ≡ true → Page offset count [] s (record s { dp_null = true })
  Page-end h = record {
    added = simp (drop-nil, take-nil, append-nil);
    ended = simp drop-nil (ground arith);
  }

  -- a name that gives no entry
  pub Page-nothing :
      (out : Scan W)
      → ltb s.dcount count ≡ true
      → Page offset count seen (record s { dp_null = false }) out
      → Page offset count seen s out
  Page-nothing out more p = record { added = p.added; ended = rw more (rw more at p.ended) }

  -- an entry that is passed over
  pub Page-over :
      (e : Entry) (w : W) (out : Scan W)
      → ltb s.dcount count ≡ true
      → s.doffset < offset
      → Page offset count seen
          (record s { dp_null = false; doffset = s.doffset + 1; world = w })
          out
      → Page offset count (e ∷ seen) s out
  Page-over e w out more below p =
      let step : offset - s.doffset ≡ suc (offset - (s.doffset + 1)) = omega arith in
      record { added = rw step p.added; ended = rw (step, more) (rw more at p.ended) }

  -- an entry that is taken
  pub Page-taken :
      (e : Entry) (w : W) (allocated : ℕ) (out : Scan W)
      → ltb s.dcount count ≡ true
      → offset ≤ s.doffset
      → Page offset count seen
          (record s {
            dp_null = false;
            doffset = s.doffset + 1;
            dcount = s.dcount + 1;
            entries = s.entries ++ e ∷ [];
            allocated = allocated;
            world = w;
          })
          out
      → Page offset count (e ∷ seen) s out
  Page-taken e w allocated out more beyond p =
      let now : offset - s.doffset ≡ 0 = omega arith in
      let later : offset - (s.doffset + 1) ≡ 0 = omega arith in
      let step : count - s.dcount ≡ suc (count - (s.dcount + 1)) = ground arith in
      record {
        added = rw (now, step) (rw later at p.added ∙ append_assoc s.entries (e ∷ []) _);
        ended = rw now (ground (arith, rw later at p.ended));
      }
