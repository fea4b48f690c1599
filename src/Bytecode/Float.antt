-- ===== src/Bytecode/Float.antt =====
-- The `f64` operations that the program uses, as an interface: the model has no floating point, and
-- states of it that its bits determine it and that its comparisons with zero are consistent.
use cubelang.Base.{ℕ, ◌<◌, ◌≡◌, Bool, ◌^◌}
use cubelang.Base.Int.{ℤ}
use cubelang.Base.Text.{Text}

pub record FloatOps : Type 1 where
  pub F : Type 0
  pub from_i64 : ℤ → F
  -- `as i64`, which saturates and sends NaN to 0
  pub to_i64 : F → ℤ
  pub to_bits : F → ℕ
  pub from_bits : ℕ → F
  pub add : F → F → F
  pub sub : F → F → F
  pub mul : F → F → F
  pub div : F → F → F
  pub eq : F → F → Bool
  -- `r.fract() == 0.0 && r.is_finite()`
  pub is_integral : F → Bool
  pub show : F → Text
  pub to_bits-lt : (x : F) → to_bits x < 2 ^ 64
  pub from_bits-to_bits : (x : F) → from_bits (to_bits x) ≡ x
