-- ===== src/Examples/Parameters.antt =====
-- Stand-ins for the code that the program takes from elsewhere: a float type of two values, and a
-- generator whose vectors are all ones.
use cubelang.Base.{
  leb, any, map, ◌+◌, ◌%◌, ℕ, [], ◌∷◌, Bool, true, false, not, ◌==◌, ◌||◌, ◌&&◌, ◌≡◌, refl, length,
  if◌then◌else◌, ◌<◌, ◌^◌, arith,
}
use cubelang.Base.Int.{pos, eq_ℤ}
use cubelang.Base.Text.{Text, lit}
use cubelang.Knowledge.{Unicode}
use cubelang.Bytecode.Operand.{Hash}
use cubelang.Vm.State.{Host}
use cubelang.Bytecode.Float.{FloatOps}
use cubelang.Memory.{HippocampalMemory}
use cubelang.Vsa.Codebook.{Rng, Codebook}

abbrev pub to_bit : Bool → ℕ
to_bit x = if x then 1 else 0

pub to_bit-lt : (x : Bool) → to_bit x < 2 ^ 64
to_bit-lt true = omega arith
to_bit-lt false = omega arith

pub from_bit : (x : Bool) → (to_bit x == 1) ≡ x
from_bit true = refl
from_bit false = refl

-- Zero and one, with "or" as the sum.
abbrev pub two_floats : FloatOps
two_floats = record {
  F = Bool;
  from_i64 = λ n. not (eq_ℤ n (pos 0));
  to_i64 = λ x. pos (to_bit x);
  to_bits = to_bit;
  from_bits = λ n. n == 1;
  add = λ x y. x || y;
  sub = λ x y. x && not y;
  mul = λ x y. x && y;
  div = λ x y. x;
  eq = λ x y. to_bit x == to_bit y;
  is_integral = λ x. true;
  show = λ x. if x then lit "1" else lit "0";
  to_bits-lt = to_bit-lt;
  from_bits-to_bits = from_bit;
}

-- The generator that always draws `true`.
abbrev pub constant_rng : Rng
constant_rng = record { State = Unit; seed_from_u64 = λ seed. tt; gen_bool = λ s. (true, s) }

-- A codebook and a memory of four dimensions.
abbrev pub small_codebook : Codebook
small_codebook = record { seed = 42; dim = 4; cache = [] }

abbrev pub small_memory : {V : Type 0} → HippocampalMemory V
small_memory = record {
  codebook = small_codebook;
  index = record { entries = []; dim = 0 };
  traces = [];
  by_key = [];
  dim = 4;
}

abbrev pub is_upper : ℕ → Bool
is_upper b = leb b'A' b && leb b b'Z'

abbrev pub is_word : ℕ → Bool
is_word b = is_upper b || (leb b'a' b && leb b b'z') || (leb b'0' b && leb b b'9')

-- ASCII letters and digits.
abbrev pub ascii : Unicode
ascii = record {
  is_alphanumeric = λ ch. any is_word ch;
  to_lowercase = λ ch. map (λ b. if is_upper b then b + 32 else b) ch;
}

-- A host whose hash is a text's length and first byte.
abbrev pub small_hash : Text → Hash
small_hash [] = (0, 0)
small_hash (b ∷ bs) = (length (b ∷ bs) % 256, b)

abbrev pub small_host : Host
small_host = record {
  floats = two_floats;
  rng = constant_rng;
  unicode = ascii;
  hash = small_hash;
  debug = λ v. lit "container";
  expired = λ n. false;
}
