-- ===== src/Bytecode/Operand.antt =====
-- Operands: the encoding that the compiler emits (src/compiler.rs: `emit_*`) and the decoding that
-- the VM makes (src/vm/engine.rs: `Operand`, `decode_operand`).
use cubelang.Base.{
  ℕ, zero, suc, ◌+◌, List, [], ◌∷◌, ◌++◌, Option, none, some, ◌==◌, leb, if◌then◌else◌, length,
  take, drop,
}
use cubelang.Base.Int.{ℤ, to_u64, from_u64, le_bytes, from_le}
use cubelang.Base.Text.{Text, lit, hex2, show_int}
use cubelang.Bytecode.Float.{FloatOps}

-- The first two bytes of a name's BLAKE3 hash.
abbrev pub Hash : Type 0
Hash = ℕ × ℕ

pub data Operand (F : Type 0) : Type 0 where
  named : Hash → Operand F
  imm : ℤ → Operand F
  float_imm : F → Operand F
  type_ : Hash → Operand F
  role : Hash → Operand F
  global : Hash → Operand F
  no_operand : Operand F

abbrev pub op_named : ℕ
op_named = 0x01

abbrev pub op_imm : ℕ
op_imm = 0x02

abbrev pub op_type : ℕ
op_type = 0x03

abbrev pub op_role : ℕ
op_role = 0x04

abbrev pub op_global : ℕ
op_global = 0x05

abbrev pub op_float : ℕ
op_float = 0x06

abbrev pub op_none : ℕ
op_none = 0x00

abbrev hashed : Text → Hash → Text
hashed prefix (a, b) = prefix ++ (hex2 a ++ hex2 b)

module _ (fl : FloatOps) where
  open fl use {F, to_bits, from_bits, show}

  -- The bytes of an operand, as `emit_named`, `emit_imm` and the others push them.
  unfoldable pub encode_operand : Operand F → List ℕ
  encode_operand (named (a, b)) = op_named ∷ a ∷ b ∷ []
  encode_operand (imm n) = op_imm ∷ le_bytes 8 (to_u64 n)
  encode_operand (float_imm x) = op_float ∷ le_bytes 8 (to_bits x)
  encode_operand (type_ (a, b)) = op_type ∷ a ∷ b ∷ []
  encode_operand (role (a, b)) = op_role ∷ a ∷ b ∷ []
  encode_operand (global (a, b)) = op_global ∷ a ∷ b ∷ []
  encode_operand no_operand = op_none ∷ 0x00 ∷ 0x00 ∷ []

  -- A hashed operand is three bytes, and a truncated one is skipped byte by byte.
  unfoldable pub hash_operand : (Hash → Operand F) → List ℕ → Operand F × ℕ
  hash_operand make (a ∷ b ∷ _) = (make (a, b), 3)
  hash_operand make _ = (no_operand, 1)

  unfoldable pub word_operand : (ℕ → Operand F) → List ℕ → Operand F × ℕ
  word_operand make bs =
      if leb 8 (length bs) then (make (from_le (take 8 bs)), 9) else (no_operand, 1)

  unfoldable pub decode_operand : List ℕ → Operand F × ℕ
  unfolding hash_operand word_operand
  decode_operand [] = (no_operand, 0)
  decode_operand (tag ∷ bs) =
      if tag == 0x01
      then hash_operand named bs
      else if tag == 0x02
      then word_operand (λ n. imm (from_u64 n)) bs
      else if tag == 0x03
      then hash_operand type_ bs
      else if tag == 0x04
      then hash_operand role bs
      else if tag == 0x05
      then hash_operand global bs
      else if tag == 0x06
      then word_operand (λ n. float_imm (from_bits n)) bs
      else if tag == 0x00
      then hash_operand (λ _. no_operand) bs
      else (no_operand, 1)

  -- The operand loop: at most `n` operands, fewer where the bytes end; and the bytes consumed.
  unfoldable pub read_operands : ℕ → List ℕ → List (Operand F) × ℕ
  read_operands zero bs = ([], 0)
  read_operands (suc n) [] = ([], 0)
  read_operands (suc n) (b ∷ bs) =
      let (o, c) = decode_operand (b ∷ bs) in
      let (os, k) = read_operands n (drop c (b ∷ bs)) in (o ∷ os, c + k)

  unfoldable pub as_name : Operand F → Text
  as_name (named h) = hashed (lit "r_") h
  as_name (global h) = hashed (lit "g_") h
  as_name (type_ h) = hashed (lit "t_") h
  as_name (role h) = hashed (lit "role_") h
  as_name (imm n) = lit "imm_" ++ show_int n
  as_name (float_imm x) = lit "fimm_" ++ show x
  as_name no_operand = lit "_"

  -- The key of a label or a jump target.
  unfoldable pub label_key : Operand F → Option Hash
  label_key (global h) = some h
  label_key (named h) = some h
  label_key _ = none
