-- ===== src/Base/Equal.antt =====
-- Boolean equality as an interface, for the keys of dictionaries.
use Prim.Native.Nat.{ℕ}
use mathlib.Core.Path.{◌≡◌, refl}
use mathlib.Core.Logic.{◌↔◌}
use mathlib.Core.Bool.{Bool, true, false, ◌&&◌}
use mathlib.Core.List.{List, [], ◌∷◌}
use native.Mathlib.Omega.{arith}
use cubelang.Base.Tests.{◌==◌, ==_iff}

pub record Equal {ℓ} (A : Type ℓ) : Type ℓ where
  pub equal : A → A → Bool
  pub equal_iff : (a b : A) → (equal a b ≡ true) ↔ (a ≡ b)

infix 50 ◌=?◌
abbrev pub ◌=?◌ {ℓ} : {A : Type ℓ} ⦃e : Equal A⦄ → A → A → Bool
◌=?◌ ⦃e⦄ = e.equal

instance abbrev pub nat_equal : Equal ℕ
nat_equal = record { equal = ◌==◌; equal_iff = ==_iff }

abbrev pub list_eq : List ℕ → List ℕ → Bool
list_eq [] [] = true
list_eq [] (y ∷ ys) = false
list_eq (x ∷ xs) [] = false
list_eq (x ∷ xs) (y ∷ ys) = (x == y) && list_eq xs ys

pub list_eq_refl : (a : List ℕ) → list_eq a a ≡ true
list_eq_refl [] = refl
list_eq_refl (x ∷ xs) = ground (arith, list_eq_refl xs)

list_eq_sound : (a b : List ℕ) → list_eq a b ≡ true → a ≡ b
list_eq_sound [] [] h = refl
list_eq_sound [] (y ∷ ys) h = cc
list_eq_sound (x ∷ xs) [] h = cc
list_eq_sound (x ∷ xs) (y ∷ ys) h = ground (arith, list_eq_sound xs ys)

list_eq_complete : (a b : List ℕ) → a ≡ b → list_eq a b ≡ true
list_eq_complete a b h = rw h (list_eq_refl b)

pub list_eq_iff : (a b : List ℕ) → (list_eq a b ≡ true) ↔ (a ≡ b)
list_eq_iff a b = (list_eq_sound a b, list_eq_complete a b)

instance abbrev pub list_equal : Equal (List ℕ)
list_equal = record { equal = list_eq; equal_iff = list_eq_iff }

pub =?_refl {ℓ} : {A : Type ℓ} ⦃e : Equal A⦄ (a : A) → (a =? a) ≡ true
=?_refl ⦃e⦄ a = (e.equal_iff a a).1 refl

pub pair_eq_iff : (a b : ℕ × ℕ) → (((a.0 == b.0) && (a.1 == b.1)) ≡ true) ↔ (a ≡ b)
pair_eq_iff a b = ground arith

instance abbrev pub pair_equal : Equal (ℕ × ℕ)
pair_equal = record { equal = λ a b. (a.0 == b.0) && (a.1 == b.1); equal_iff = pair_eq_iff }
