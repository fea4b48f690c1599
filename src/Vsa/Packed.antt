-- ===== src/Vsa/Packed.antt =====
-- The packed words of two vectors, digit by digit (src/vm/hypervec.rs: `pack_bits`,
-- `hamming_dist_packed`).
use Prim.Native.Nat.{bit_xor, differ}
use cubelang.Base.{
  ℕ, zero, suc, ◌+◌, ◌/◌, ◌%◌, ◌^◌, ◌<◌, List, [], ◌∷◌, Bool, true, false, length, set, ◌≡◌, refl,
  ap, arith,
}
use cubelang.Base.Bits.{bit_xor-halves, two-pow-suc}
use cubelang.Vsa.Hypervec.{zip_with, word_at, sum, count_ones_from, count_ones, hamming_dist_packed}

-- A word with the digit `k` set, or as it is.
abbrev pub with_bit : Bool → ℕ → ℕ → ℕ
with_bit true k w = w + 2 ^ k
with_bit false k w = w

abbrev pub mismatch : Bool → Bool → ℕ
mismatch true true = 0
mismatch true false = 1
mismatch false true = 1
mismatch false false = 0

differ_digits : (x y : ℕ) → x < 2 → y < 2 → differ x y < 2
differ_digits zero y p q = q
differ_digits (suc x) zero p q = p
differ_digits (suc x) (suc y) p q = differ_digits x y (omega arith) (omega arith)

with_bit-low : (p : Bool) (k w : ℕ) → with_bit p (suc k) w % 2 ≡ w % 2
with_bit-low true k w = omega (arith, two-pow-suc k)
with_bit-low false k w = refl

with_bit-high : (p : Bool) (k w : ℕ) → with_bit p (suc k) w / 2 ≡ with_bit p k (w / 2)
with_bit-high true k w = omega (arith, two-pow-suc k)
with_bit-high false k w = refl

pub with_bit-bound : (p : Bool) (k w : ℕ) → w < 2 ^ k → with_bit p k w < 2 ^ suc k
with_bit-bound true k w h = omega (arith, two-pow-suc k)
with_bit-bound false k w h = omega (arith, two-pow-suc k)

count_step :
    (n a b : ℕ)
    → count_ones_from (suc n) (bit_xor a b)
      ≡ differ (a % 2) (b % 2) + count_ones_from n (bit_xor (a / 2) (b / 2))
unfolding count_ones_from
count_step n a b = rw (low, high) refl
  where
    bound : differ (a % 2) (b % 2) < 2
    bound = differ_digits (a % 2) (b % 2) (omega arith) (omega arith)

    low : bit_xor a b % 2 ≡ differ (a % 2) (b % 2)
    low = omega (arith, bound, bit_xor-halves a b)

    high : bit_xor a b / 2 ≡ bit_xor (a / 2) (b / 2)
    high = omega (arith, bound, bit_xor-halves a b)

-- Setting a digit above both words adds one, where it is set in one of them only.
count-with_bit :
    (k n w v : ℕ) (p q : Bool)
    → k < n
    → w < 2 ^ k
    → v < 2 ^ k
    → count_ones_from n (bit_xor (with_bit p k w) (with_bit q k v))
      ≡ count_ones_from n (bit_xor w v) + mismatch p q
unfolding count_ones_from
count-with_bit k zero w v p q lt hw hv = absurd (omega arith)
count-with_bit zero (suc n) (suc w) v p q lt hw hv = absurd (omega arith)
count-with_bit zero (suc n) zero (suc v) p q lt hw hv = absurd (omega arith)
count-with_bit zero (suc n) zero zero true true lt hw hv = omega arith
count-with_bit zero (suc n) zero zero true false lt hw hv = omega arith
count-with_bit zero (suc n) zero zero false true lt hw hv = omega arith
count-with_bit zero (suc n) zero zero false false lt hw hv = omega arith
count-with_bit (suc k) (suc n) w v p q lt hw hv =
    rw
      (
        count_step n (with_bit p (suc k) w) (with_bit q (suc k) v),
        count_step n w v,
        with_bit-low p k w,
        with_bit-low q k v,
        with_bit-high p k w,
        with_bit-high q k v,
        count-with_bit k n (w / 2) (v / 2) p q (omega arith) (omega (arith, two-pow-suc k))
            (omega (arith, two-pow-suc k)),
      )
      (omega arith)

pub count_ones-with_bit :
    (k w v : ℕ) (p q : Bool)
    → k < 64
    → w < 2 ^ k
    → v < 2 ^ k
    → count_ones (bit_xor (with_bit p k w) (with_bit q k v))
      ≡ count_ones (bit_xor w v) + mismatch p q
unfolding count_ones
count_ones-with_bit k w v p q lt hw hv = count-with_bit k 64 w v p q lt hw hv

pub set-word_at : (ws : List ℕ) (i : ℕ) → set ws i (word_at ws i) ≡ ws
set-word_at [] i = refl
set-word_at (w ∷ ws) zero = refl
set-word_at (w ∷ ws) (suc i) = ap (λ t. w ∷ t) (set-word_at ws i)

pub word_at-set : (ws : List ℕ) (i v : ℕ) → i < length ws → word_at (set ws i v) i ≡ v
word_at-set [] i v h = absurd (omega arith)
word_at-set (w ∷ ws) zero v h = refl
word_at-set (w ∷ ws) (suc i) v h = word_at-set ws i v (omega arith)

pub word_at_other : (ws : List ℕ) (i j v : ℕ) → i < j → word_at (set ws i v) j ≡ word_at ws j
word_at_other [] i j v h = refl
word_at_other (w ∷ ws) i zero v h = absurd (omega arith)
word_at_other (w ∷ ws) zero (suc j) v h = refl
word_at_other (w ∷ ws) (suc i) (suc j) v h = word_at_other ws i j v (omega arith)

-- One word changed in both lists changes the distance by what that word's count changes.
pub dist-set :
    (ws vs : List ℕ) (i w v d : ℕ)
    → i < length ws
    → length ws ≡ length vs
    → count_ones (bit_xor w v) ≡ count_ones (bit_xor (word_at ws i) (word_at vs i)) + d
    → hamming_dist_packed (set ws i w) (set vs i v) ≡ hamming_dist_packed ws vs + d
unfolding hamming_dist_packed zip_with sum
dist-set [] vs i w v d h e c = absurd (omega arith)
dist-set (x ∷ ws) [] i w v d h e c = absurd (omega arith)
dist-set (x ∷ ws) (y ∷ vs) zero w v d h e c = omega arith
dist-set (x ∷ ws) (y ∷ vs) (suc i) w v d h e c =
    omega (arith, dist-set ws vs i w v d (omega arith) (omega arith) c)
