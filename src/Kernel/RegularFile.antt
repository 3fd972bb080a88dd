-- ===== src/Kernel/RegularFile.antt =====
-- What is documented of `pread` and `pwrite` on a regular file, which the theorems about transfers
-- take as hypotheses on a kernel.
use icbinn.Common.{
  ℕ, zero, suc, ◌+◌, ◌^◌, ◌<◌, ◌≡◌, refl, ap, ℤ, Bytes, [], ◌∷◌, ◌++◌, append-nil, length, take,
  drop, take_all, arith,
}
use icbinn.Kernel.{Kernel, returned}

-- In the machine `w` the descriptor is a regular file that holds `content`: `pread` gives as much
-- as is asked for and there, and changes nothing. Offsets are those of `off_t`.
abbrev pub ReadsAs : {W : Type 0} → Kernel W → ℤ → Bytes → W → Type 0
ReadsAs k fd content w =
    (n offset : ℕ)
    → offset < 2 ^ 63
    → k.pread fd n offset w ≡ (returned (take n (drop offset content)), w)

-- The content of a file after a write of some bytes at an offset. A gap reads as zeros.
unfoldable pub put : Bytes → ℕ → Bytes → Bytes
put content zero [] = content
put [] zero (b ∷ bs) = b ∷ bs
put (c ∷ content) zero (b ∷ bs) = b ∷ put content zero bs
put [] (suc offset) bs = 0 ∷ put [] offset bs
put (c ∷ content) (suc offset) bs = c ∷ put content offset bs

-- A write of no bytes changes nothing.
unfoldable pub write_at : Bytes → ℕ → Bytes → Bytes
unfolding put
write_at content offset [] = content
write_at content offset (b ∷ bs) = put content offset (b ∷ bs)

-- `content` is what the descriptor's file holds in a machine: `pwrite` takes every byte, and puts
-- them at the offset.
pub record WritesAs {W : Type 0} (k : Kernel W) (fd : ℤ) (content : W → Bytes) : Type 0 where
  pub complete :
      (bytes : Bytes) (offset : ℕ) (w : W)
      → offset < 2 ^ 63
      → (k.pwrite fd bytes offset w).0 ≡ returned (length bytes)
  pub written :
      (bytes : Bytes) (offset : ℕ) (w : W)
      → offset < 2 ^ 63
      → content (k.pwrite fd bytes offset w).1 ≡ write_at (content w) offset bytes

put_empty : (bs : Bytes) → put [] 0 bs ≡ bs
unfolding put
put_empty [] = refl
put_empty (b ∷ bs) = refl

put_behind : (xs ys : Bytes) (end : ℕ) → length xs ≡ end → put xs end ys ≡ xs ++ ys
unfolding put
put_behind [] ys zero e = put_empty ys
put_behind [] ys (suc end) e = absurd (omega arith)
put_behind (x ∷ xs) ys zero e = absurd (omega arith)
put_behind (x ∷ xs) ys (suc end) e = ap (λ l. x ∷ l) (put_behind xs ys end (omega arith))

-- Two writes, the second right behind the first, are one.
put-put :
    (content : Bytes) (offset end : ℕ) (xs ys : Bytes)
    → offset + length xs ≡ end
    → put (put content offset xs) end ys ≡ put content offset (xs ++ ys)
unfolding put
put-put content zero end [] ys e = ap (λ o. put content o ys) {x = end} {y = 0} (omega arith)
put-put [] zero zero (x ∷ xs) ys e = absurd (omega arith)
put-put [] zero (suc end) (x ∷ xs) ys e = ap (λ l. x ∷ l) (put_behind xs ys end (omega arith))
put-put (c ∷ content) zero zero (x ∷ xs) ys e = absurd (omega arith)
put-put (c ∷ content) zero (suc end) (x ∷ xs) ys e =
    ap (λ l. x ∷ l) (put-put content zero end xs ys (omega arith))
put-put [] (suc offset) zero xs ys e = absurd (omega arith)
put-put [] (suc offset) (suc end) xs ys e =
    ap (λ l. 0 ∷ l) (put-put [] offset end xs ys (omega arith))
put-put (c ∷ content) (suc offset) zero xs ys e = absurd (omega arith)
put-put (c ∷ content) (suc offset) (suc end) xs ys e =
    ap (λ l. c ∷ l) (put-put content offset end xs ys (omega arith))

-- What was written is read back.
put_read :
    (content : Bytes) (offset : ℕ) (bs : Bytes)
    → take (length bs) (drop offset (put content offset bs)) ≡ bs
unfolding put
put_read content zero [] = refl
put_read [] zero (b ∷ bs) = ap (λ l. b ∷ l) (take_all (length bs) bs (omega arith))
put_read (c ∷ content) zero (b ∷ bs) = ap (λ l. b ∷ l) (put_read content zero bs)
put_read [] (suc offset) bs = put_read [] offset bs
put_read (c ∷ content) (suc offset) bs = put_read content offset bs

pub write_at-write_at :
    (content : Bytes) (offset end : ℕ) (xs ys : Bytes)
    → offset + length xs ≡ end
    → write_at (write_at content offset xs) end ys ≡ write_at content offset (xs ++ ys)
unfolding write_at
write_at-write_at content offset end [] ys e = ap (λ o. write_at content o ys) (omega arith)
write_at-write_at content offset end (x ∷ xs) [] e = rw append-nil
write_at-write_at content offset end (x ∷ xs) (y ∷ ys) e =
    put-put content offset end (x ∷ xs) (y ∷ ys) e

pub write_at_read :
    (content : Bytes) (offset : ℕ) (bs : Bytes)
    → take (length bs) (drop offset (write_at content offset bs)) ≡ bs
unfolding write_at
write_at_read content offset [] = refl
write_at_read content offset (b ∷ bs) = put_read content offset (b ∷ bs)
