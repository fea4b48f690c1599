-- ===== src/Base/Bits.antt =====
-- The lowest digit of `|` and `^` on the native numbers.
use Prim.Native.Nat.{
  ℕ, zero, suc, ◌+◌, ◌*◌, ◌/◌, ◌%◌, ◌^◌, ◌≤◌, ◌<◌, max, digits, bitwise, differ, bit_or, bit_xor,
  bit_or-bitwise, bit_xor-bitwise,
}
use mathlib.Core.Path.{◌≡◌, refl, ap}
use native.Mathlib.Omega.{arith}
use native.Mathlib.Nat.{pow-suc}

module _ (z : ℕ → ℕ) (f : ℕ → ℕ → ℕ) where
  -- The fuel beyond the first number is not used.
  digits_enough :
      (less more x y : ℕ) → less ≤ more → x ≤ less → digits z f more x y ≡ digits z f less x y
  digits_enough zero zero x y le fits = refl
  digits_enough (suc less) zero x y le fits = absurd (omega arith)
  digits_enough zero (suc more) zero y le fits = refl
  digits_enough zero (suc more) (suc x) y le fits = absurd (omega arith)
  digits_enough (suc less) (suc more) zero y le fits = refl
  digits_enough (suc less) (suc more) (suc x) y le fits =
      ap (λ d. d * 2 + f (suc x % 2) (y % 2))
        (digits_enough less more (suc x / 2) (y / 2) (omega arith) (omega arith))

  lowest_digit :
      (x y : ℕ)
      → bitwise z f (suc x) y ≡ f (suc x % 2) (y % 2) + 2 * bitwise z f (suc x / 2) (y / 2)
  lowest_digit x y =
      omega (arith, digits_enough (suc x / 2) x (suc x / 2) (y / 2) (omega arith) (omega arith))

pub bit_or-halves : (x y : ℕ) → bit_or x y ≡ max (x % 2) (y % 2) + 2 * bit_or (x / 2) (y / 2)
bit_or-halves zero y = simp bit_or-bitwise (omega arith)
bit_or-halves (suc x) y = simp bit_or-bitwise (lowest_digit (λ d. d) max x y)

pub bit_xor-halves : (x y : ℕ) → bit_xor x y ≡ differ (x % 2) (y % 2) + 2 * bit_xor (x / 2) (y / 2)
bit_xor-halves zero y = simp bit_xor-bitwise (omega arith)
bit_xor-halves (suc x) y = simp bit_xor-bitwise (lowest_digit (λ d. d) differ x y)

pub two-pow-suc : (k : ℕ) → 2 ^ suc k ≡ 2 * 2 ^ k
two-pow-suc k = omega (arith, pow-suc 2 k)

or_below_zero : (a : ℕ) → bit_or zero a ≡ a
or_below_zero a = simp bit_or-bitwise refl

half : (k : ℕ) → 2 ^ suc k / 2 ≡ 2 ^ k
half k = omega (arith, two-pow-suc k)

-- Setting a digit above the number adds its weight.
pub bit_or-above : (k w : ℕ) → w < 2 ^ k → bit_or w (2 ^ k) ≡ w + 2 ^ k
bit_or-above zero zero h = or_below_zero 1
bit_or-above zero (suc w) h = absurd (omega arith)
bit_or-above (suc k) w h = omega (
  arith,
  two-pow-suc k,
  bit_or-halves w (2 ^ suc k),
  ap (λ (t : ℕ). bit_or (w / 2) t) (half k),
  bit_or-above k (w / 2) (omega (arith, two-pow-suc k)),
)
