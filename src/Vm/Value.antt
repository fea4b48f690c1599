-- ===== src/Vm/Value.antt =====
-- Runtime values (src/vm/engine.rs: `Value`, `num_binop`, `same_selection`). A `Map` is its fields in
-- the order of insertion. `none` is a panic.
use cubelang.Base.{
  ℕ, ◌+◌, ◌-◌, ◌^◌, ◌/◌, ◌%◌, ◌==◌, List, [], ◌∷◌, Bool, true, false, ◌&&◌, ◌||◌, not, Option, none,
  some, if◌then◌else◌, length,
}
use cubelang.Base.Int.{ℤ, pos, negsuc, ◌+ℤ◌, ◌-ℤ◌, ◌*ℤ◌, eq_ℤ, wrap, pos_part, neg_part}
use cubelang.Base.Text.{Text, lit, show_int}
use cubelang.Base.Dict.{Dict, lookup}
use cubelang.Base.Equal.{list_equal, list_eq}
use cubelang.Vsa.Hypervec.{Hypervec}
use cubelang.Bytecode.Float.{FloatOps}

mutual
  pub data Value (F : Type 0) : Type 0 where
    int : ℤ → Value F
    float : F → Value F
    str : Text → Value F
    bool : Bool → Value F
    null : Value F
    array : Values F → Value F
    map : Fields F → Value F
    hvec : Hypervec → Value F

  pub data Values (F : Type 0) : Type 0 where
    no_values : Values F
    value : Value F → Values F → Values F

  pub data Fields (F : Type 0) : Type 0 where
    no_fields : Fields F
    field : Text → Value F → Fields F → Fields F

pub data BinOp : Type 0 where
  plus minus times over : BinOp

module _ {F : Type 0} where
  unfoldable pub items : Values F → List (Value F)
  items no_values = []
  items (value v vs) = v ∷ items vs

  unfoldable pub of_items : List (Value F) → Values F
  of_items [] = no_values
  of_items (v ∷ vs) = value v (of_items vs)

  unfoldable pub entries : Fields F → Dict Text (Value F)
  entries no_fields = []
  entries (field k v fs) = (k, v) ∷ entries fs

  unfoldable pub of_entries : Dict Text (Value F) → Fields F
  of_entries [] = no_fields
  of_entries ((k, v) ∷ d) = field k v (of_entries d)

module _ (fl : FloatOps) where
  open fl use {F, from_i64, to_i64, eq, is_integral, show}

  unfoldable pub as_i64 : Value F → ℤ
  as_i64 (int n) = n
  as_i64 (float x) = to_i64 x
  as_i64 (bool b) = if b then pos 1 else pos 0
  as_i64 _ = pos 0

  unfoldable pub as_f64 : Value F → F
  as_f64 (int n) = from_i64 n
  as_f64 (float x) = x
  as_f64 (bool b) = if b then from_i64 (pos 1) else from_i64 (pos 0)
  as_f64 _ = from_i64 (pos 0)

  -- `debug` is the derived `{:?}` of the containers.
  unfoldable pub as_str : (Value F → Text) → Value F → Text
  as_str debug (str s) = s
  as_str debug (int n) = show_int n
  as_str debug (float x) = show x
  as_str debug (bool b) = if b then lit "true" else lit "false"
  as_str debug null = lit "null"
  as_str debug (array vs) = debug (array vs)
  as_str debug (map fs) = debug (map fs)
  as_str debug (hvec h) = debug (hvec h)

  unfoldable pub is_truthy : Value F → Bool
  is_truthy (bool b) = b
  is_truthy (int n) = not (eq_ℤ n (pos 0))
  is_truthy (float x) = not (eq x (from_i64 (pos 0)))
  is_truthy null = false
  is_truthy (str s) = not (length s == 0)
  is_truthy _ = true

  unfoldable mutual
    pub same_selection : Value F → Value F → Bool
    same_selection (int x) (int y) = eq_ℤ x y
    same_selection (str x) (str y) = list_eq x y
    same_selection (bool x) (bool y) = if x then y else not y
    same_selection (float x) (float y) = eq x y
    same_selection null null = true
    same_selection (array x) (array y) =
        (length (items x) == length (items y)) && same_items x (items y)
    same_selection (map x) (map y) =
        (length (entries x) == length (entries y)) && same_fields x (entries y)
    same_selection _ _ = false

    pub same_items : Values F → List (Value F) → Bool
    same_items no_values ys = true
    same_items (value x xs) [] = true
    same_items (value x xs) (y ∷ ys) = same_selection x y && same_items xs ys

    -- Each field of the first has its match in the second.
    pub same_fields : Fields F → Dict Text (Value F) → Bool
    same_fields no_fields ys = true
    same_fields (field k v fs) ys =
        elim (lookup k ys) [ none ↦ false | some w ↦ same_selection v w ] && same_fields fs ys

  unfoldable pub is_float : Value F → Bool
  is_float (float x) = true
  is_float _ = false

  unfoldable pub float_binop : F → F → BinOp → F
  float_binop x y plus = fl.add x y
  float_binop x y minus = fl.sub x y
  float_binop x y times = fl.mul x y
  float_binop x y over = fl.div x y

  abbrev abs : ℤ → ℕ
  abs n = pos_part n + neg_part n

  -- `x / y` where `y` divides `x`.
  unfoldable pub exact_quotient : ℤ → ℤ → ℤ
  exact_quotient x y = (pos (abs x / abs y)) *ℤ (sign x *ℤ sign y)
    where
      sign : ℤ → ℤ
      sign (pos n) = pos 1
      sign (negsuc n) = negsuc 0

  -- `i64::MIN % -1`, which panics.
  unfoldable pub remainder_overflows : ℤ → ℤ → Bool
  remainder_overflows x y = eq_ℤ x (negsuc (2 ^ 63 - 1)) && eq_ℤ y (negsuc 0)

  unfoldable pub int_div : ℤ → ℤ → Option (Value F)
  int_div x y =
      if eq_ℤ y (pos 0)
      then some (int (pos 0))
      else if remainder_overflows x y
      then none
      else if abs x % abs y == 0
      then some (int (exact_quotient x y))
      else some (float (fl.div (from_i64 x) (from_i64 y)))

  unfoldable pub int_binop : ℤ → ℤ → BinOp → Option (Value F)
  int_binop x y plus = some (int (wrap (x +ℤ y)))
  int_binop x y minus = some (int (wrap (x -ℤ y)))
  int_binop x y times = some (int (wrap (x *ℤ y)))
  int_binop x y over = int_div x y

  unfoldable pub num_binop : Value F → Value F → BinOp → Option (Value F)
  num_binop a b op =
      let r = float_binop (as_f64 a) (as_f64 b) op in
      if is_float a || is_float b
      then some (if is_integral r then int (to_i64 r) else float r)
      else int_binop (as_i64 a) (as_i64 b) op
