-- ===== src/Vsa/Hamming.antt =====
-- The packed distance against its definition (src/vm/hypervec.rs: `hamming_dist`).
use Prim.Native.Nat.{bit_or}
use cubelang.Base.{
  ℕ, zero, suc, ◌+◌, ◌*◌, ◌/◌, ◌%◌, ◌^◌, ◌≤◌, ◌<◌, List, [], ◌∷◌, Bool, true, false, length, set,
  some, ◌≡◌, refl, ap, sym, ◌∙◌, ◌⊎◌, length-set, arith, if◌then◌else◌, inl, inr,
}
use cubelang.Base.Int.{ℤ, pos, eq_ℤ, ltb_ℤ}
use cubelang.Base.Bits.{bit_or-above}
use cubelang.Vsa.Hypervec.{
  Hypervec, IsSign, IsBipolar, replicate, word_at, pack_from, pack_bits, hamming_dist_packed,
  hamming_dist, zip_with, sum, count_ones, count_ones_from,
}
use cubelang.Vsa.Packed.{
  with_bit, mismatch, with_bit-bound, count_ones-with_bit, set-word_at, word_at-set, word_at_other,
  dist-set,
}

-- The number of positions where two vectors differ.
abbrev pub differences : Hypervec → Hypervec → ℕ
differences [] ys = 0
differences (x ∷ xs) [] = 0
differences (x ∷ xs) (y ∷ ys) = (if eq_ℤ x y then 0 else 1) + differences xs ys

-- Nothing is set at the position `i` or past it.
abbrev IsClear : ℕ → List ℕ → Type 0
IsClear i ws = (word_at ws (i / 64) < 2 ^ (i % 64)) × ((j : ℕ) → i / 64 < j → word_at ws j ≡ 0)

abbrev positive : ℤ → Bool
positive x = ltb_ℤ (pos 0) x

-- The words after the element at `i`.
abbrev marked : ℕ → List ℕ → Bool → List ℕ
marked i ws p = set ws (i / 64) (with_bit p (i % 64) (word_at ws (i / 64)))

marking :
    (i : ℕ) (ws : List ℕ) (p : Bool)
    → IsClear i ws
    → (if p then set ws (i / 64) (bit_or (word_at ws (i / 64)) (2 ^ (i % 64))) else ws)
      ≡ marked i ws p
marking i ws true h = ap (λ w. set ws (i / 64) w) (bit_or-above (i % 64) (word_at ws (i / 64)) h.0)
marking i ws false h = sym (set-word_at ws (i / 64))

marked-IsClear :
    (i : ℕ) (ws : List ℕ) (p : Bool)
    → i / 64 < length ws
    → IsClear i ws
    → (suc i / 64 ≡ i / 64) ⊎ (suc i / 64 ≡ suc (i / 64))
    → IsClear (suc i) (marked i ws p)
marked-IsClear i ws p fits h (inl same) = (
  rw (same, word_at-set ws (i / 64) (with_bit p (i % 64) (word_at ws (i / 64))) fits, up)
      (with_bit-bound p (i % 64) (word_at ws (i / 64)) h.0),
  λ j lt. word_at_other ws (i / 64) j _ (omega arith) ∙ h.1 j (omega arith),
)
  where
    up : suc i % 64 ≡ suc (i % 64)
    up = omega arith
marked-IsClear i ws p fits h (inr new) = (
  rw
      (
        new,
        zero_rem,
        word_at_other ws (i / 64) (suc (i / 64)) (with_bit p (i % 64) (word_at ws (i / 64)))
            (omega arith),
        h.1 (suc (i / 64)) (omega arith),
      )
      (omega arith),
  λ j lt. word_at_other ws (i / 64) j _ (omega arith) ∙ h.1 j (omega arith),
)
  where
    zero_rem : suc i % 64 ≡ 0
    zero_rem = omega arith

length-marked : (i : ℕ) (ws : List ℕ) (p : Bool) → length (marked i ws p) ≡ length ws
length-marked i ws p = length-set ws (i / 64) (with_bit p (i % 64) (word_at ws (i / 64)))

mismatch-positive :
    (x y : ℤ)
    → IsSign x
    → IsSign y
    → mismatch (positive x) (positive y) ≡ (if eq_ℤ x y then 0 else 1)
mismatch-positive x y (inl a) (inl b) = rw (a, b) refl
mismatch-positive x y (inl a) (inr b) = rw (a, b) refl
mismatch-positive x y (inr a) (inl b) = rw (a, b) refl
mismatch-positive x y (inr a) (inr b) = rw (a, b) refl

dist-marked :
    (i : ℕ) (ws vs : List ℕ) (p q : Bool)
    → i / 64 < length ws
    → length ws ≡ length vs
    → IsClear i ws
    → IsClear i vs
    → hamming_dist_packed (marked i ws p) (marked i vs q) ≡ hamming_dist_packed ws vs + mismatch p q
dist-marked i ws vs p q fits same hw hv = dist-set ws vs (i / 64) _ _ (mismatch p q) fits same (
    count_ones-with_bit (i % 64) (word_at ws (i / 64)) (word_at vs (i / 64)) p q (omega arith) hw.0
      hv.0)

word_step : (i : ℕ) → (suc i / 64 ≡ i / 64) ⊎ (suc i / 64 ≡ suc (i / 64))
word_step i = ground arith

dist-pack_from :
    (i : ℕ) (ws vs : List ℕ) (xs ys : Hypervec)
    → i + length xs ≤ 64 * length ws
    → length ws ≡ length vs
    → length xs ≡ length ys
    → IsClear i ws
    → IsClear i vs
    → IsBipolar xs
    → IsBipolar ys
    → hamming_dist_packed (pack_from i ws xs) (pack_from i vs ys)
      ≡ hamming_dist_packed ws vs + differences xs ys
unfolding pack_from
dist-pack_from i ws vs [] [] fits same eq hw hv bx by = omega arith
dist-pack_from i ws vs [] (y ∷ ys) fits same eq hw hv bx by = absurd (omega arith)
dist-pack_from i ws vs (x ∷ xs) [] fits same eq hw hv bx by = absurd (omega arith)
dist-pack_from i ws vs (x ∷ xs) (y ∷ ys) fits same eq hw hv bx by =
    rw (marking i ws (positive x) hw, marking i vs (positive y) hv)
      (omega (
        arith,
        dist-pack_from (suc i) (marked i ws (positive x)) (marked i vs (positive y)) xs ys
            (omega (arith, length-marked i ws (positive x)))
            (omega (arith, length-marked i ws (positive x), length-marked i vs (positive y)))
            (omega arith) (marked-IsClear i ws (positive x) (omega arith) hw (word_step i))
            (marked-IsClear i vs (positive y) (omega arith) hv (word_step i)) bx.1 by.1,
        dist-marked i ws vs (positive x) (positive y) (omega arith) same hw hv,
        mismatch-positive x y bx.0 by.0,
      ))

word_at-replicate : (n j : ℕ) → word_at (replicate n 0) j ≡ 0
unfolding replicate
word_at-replicate zero j = refl
word_at-replicate (suc n) zero = refl
word_at-replicate (suc n) (suc j) = word_at-replicate n j

length-replicate : (n : ℕ) → length (replicate {A = ℕ} n 0) ≡ n
unfolding replicate
length-replicate zero = refl
length-replicate (suc n) = omega (arith, length-replicate n)

dist-replicate : (n : ℕ) → hamming_dist_packed (replicate n 0) (replicate n 0) ≡ 0
unfolding replicate hamming_dist_packed zip_with sum count_ones count_ones_from
dist-replicate zero = refl
dist-replicate (suc n) = omega (arith, dist-replicate n)

-- For vectors of 1 and -1 of the same dimension, the population count of the exclusive or of the
-- packed words is the number of positions where the vectors differ.
pub hamming_dist-differences :
    (a b : Hypervec)
    → IsBipolar a
    → IsBipolar b
    → length a ≡ length b
    → hamming_dist a b ≡ some (differences a b)
unfolding hamming_dist pack_bits
hamming_dist-differences a b ha hb same = rw same (ground (arith, packed))
  where
    clear : (n : ℕ) → IsClear 0 (replicate n 0)
    clear n = (omega (arith, word_at-replicate n 0), λ j lt. word_at-replicate n j)

    packed :
        hamming_dist_packed
          (pack_from 0 (replicate ((length b + 63) / 64) 0) a)
          (pack_from 0 (replicate ((length b + 63) / 64) 0) b)
        ≡ differences a b
    packed = omega (
      arith,
      dist-pack_from 0 (replicate ((length b + 63) / 64) 0) (replicate ((length b + 63) / 64) 0) a b
          (omega (arith, length-replicate ((length b + 63) / 64))) refl same
          (clear ((length b + 63) / 64)) (clear ((length b + 63) / 64)) ha hb,
      dist-replicate ((length b + 63) / 64),
    )
