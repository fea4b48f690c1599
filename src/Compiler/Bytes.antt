-- ===== src/Compiler/Bytes.antt =====
-- The bytes that each emitter appends, as operands and instructions (src/compiler.rs: `emit_*`,
-- `compile_expr_operand`).
use cubelang.Base.{
  ℕ, ◌+◌, List, [], ◌∷◌, ◌++◌, Bool-cases, Bool, any, true, false, if◌then◌else◌, ◌≡◌, refl, length,
  append_assoc, append-nil, map, inl, inr, All, ap, ◌∙◌, arith,
}
use cubelang.Base.Int.{ℤ, pos, IsI64}
use cubelang.Base.Text.{Text}
use cubelang.Bytecode.Op
use cubelang.Bytecode.Operand.{
  Operand, named, imm, float_imm, type_, role, global, no_operand, encode_operand, Hash,
}
use cubelang.Bytecode.RoundTrip.{encode_operands, IsEncodable}
use cubelang.Bytecode.Code.{Instr, instr, encode_instr}
use cubelang.Syntax.Expr.{
  Expr, int_lit, float_lit, string_lit, bool_lit, null, ident, self_access, field, index,
}
use cubelang.Vm.State.{Host}
use cubelang.Compiler.State.{Compiler}
use cubelang.Compiler.Emit.{
  emit_byte, emit_bytes, emit_hash, emit_named, emit_imm, emit_float_imm, emit_type, emit_role,
  emit_none, record_symbol, emit_global, emit_debug, emit_label, emit_jmp, emit_cond_jump,
}
use cubelang.Compiler.Operands.{
  compile_expr_operand, compile_operands, not_an_operand, operand_error, field_name,
}

module _ (host : Host) where
  open host use {hash, floats}
  open host.floats use {F}

  pub bytes_byte : (b : ℕ) (c : Compiler F) → (emit_byte host b c).bytecode ≡ c.bytecode ++ b ∷ []
  unfolding emit_byte
  bytes_byte b c = refl

  bytes_bytes : (bs : List ℕ) (c : Compiler F) → (emit_bytes host bs c).bytecode ≡ c.bytecode ++ bs
  unfolding emit_bytes
  bytes_bytes [] c = simp append-nil
  bytes_bytes (b ∷ bs) c = simp (bytes_bytes bs, bytes_byte, append_assoc)

  bytes_hash :
      (h : Hash) (c : Compiler F) → (emit_hash host h c).bytecode ≡ c.bytecode ++ h.0 ∷ h.1 ∷ []
  unfolding emit_hash
  bytes_hash h c = simp (bytes_byte, append_assoc)

  pub bytes_debug :
      (code : ℕ) (d : Text) (c : Compiler F) → (emit_debug host code d c).bytecode ≡ c.bytecode
  unfolding emit_debug
  bytes_debug code d c = refl

  pub bytes_symbol : (s : Text) (c : Compiler F) → (record_symbol host s c).bytecode ≡ c.bytecode
  unfolding record_symbol
  bytes_symbol s c = ground arith

  pub bytes_named :
      (n : Text) (c : Compiler F)
      → (emit_named host n c).bytecode ≡ c.bytecode ++ encode_operand floats (named (hash n))
  unfolding emit_named encode_operand
  bytes_named n c = simp (bytes_hash, bytes_byte, append_assoc)

  pub bytes_imm :
      (n : ℤ) (c : Compiler F)
      → (emit_imm host n c).bytecode ≡ c.bytecode ++ encode_operand floats (imm n)
  unfolding emit_imm encode_operand
  bytes_imm n c = simp (bytes_bytes, bytes_byte, append_assoc)

  pub bytes_float :
      (x : F) (c : Compiler F)
      → (emit_float_imm host x c).bytecode ≡ c.bytecode ++ encode_operand floats (float_imm x)
  unfolding emit_float_imm encode_operand
  bytes_float x c = simp (bytes_bytes, bytes_byte, append_assoc)

  pub bytes_type :
      (n : Text) (c : Compiler F)
      → (emit_type host n c).bytecode ≡ c.bytecode ++ encode_operand floats (type_ (hash n))
  unfolding emit_type encode_operand
  bytes_type n c = simp (bytes_hash, bytes_byte, append_assoc)

  pub bytes_role :
      (n : Text) (c : Compiler F)
      → (emit_role host n c).bytecode ≡ c.bytecode ++ encode_operand floats (role (hash n))
  unfolding emit_role encode_operand
  bytes_role n c = simp (bytes_hash, bytes_byte, append_assoc)

  pub bytes_none :
      (c : Compiler F)
      → (emit_none host c).bytecode ≡ c.bytecode ++ encode_operand floats no_operand
  unfolding emit_none encode_operand
  bytes_none c = simp (bytes_byte, append_assoc)

  pub bytes_global :
      (n : Text) (c : Compiler F)
      → (emit_global host n c).bytecode ≡ c.bytecode ++ encode_operand floats (global (hash n))
  unfolding emit_global encode_operand
  bytes_global n c = simp (bytes_symbol, bytes_hash, bytes_byte, append_assoc)

  -- The instruction on one label.
  abbrev pub on_label : ℕ → Text → Instr F
  on_label op label = instr op (global (hash label) ∷ [])

  pub bytes_label :
      (l : Text) (c : Compiler F)
      → (emit_label host l c).bytecode ≡ c.bytecode ++ encode_instr floats (on_label Op.label l)
  unfolding emit_label encode_instr encode_operands
  bytes_label l c = simp (bytes_global, bytes_byte, bytes_debug, append_assoc, append-nil)

  pub bytes_jmp :
      (l : Text) (c : Compiler F)
      → (emit_jmp host l c).bytecode ≡ c.bytecode ++ encode_instr floats (on_label Op.jmp l)
  unfolding emit_jmp encode_instr encode_operands
  bytes_jmp l c = simp (bytes_global, bytes_byte, append_assoc, append-nil)

  pub bytes_cond :
      (l : Text) (c : Compiler F)
      → (emit_cond_jump host l c).bytecode ≡ c.bytecode ++ encode_instr floats (on_label Op.cond l)
  unfolding emit_cond_jump encode_instr encode_operands
  bytes_cond l c = simp (bytes_global, bytes_byte, bytes_debug, append_assoc, append-nil)

  -- The operand that an expression is lowered to.
  abbrev pub operand_of : Expr F → Operand F
  operand_of (int_lit n) = imm n
  operand_of (float_lit x) = float_imm x
  operand_of (string_lit s) = global (hash s)
  operand_of (bool_lit b) = imm (if b then pos 1 else pos 0)
  operand_of null = imm (pos 0)
  operand_of (ident n) = named (hash n)
  operand_of (self_access f) = named (hash f)
  operand_of (field base f) = named (hash (field_name host base f))
  operand_of _ = no_operand

  bytes_refused :
      (e : Expr F) (c : Compiler F)
      → (not_an_operand host e c).bytecode ≡ c.bytecode ++ encode_operand floats no_operand
  unfolding not_an_operand operand_error
  bytes_refused e c = simp bytes_none

  pub bytes_operand :
      (e : Expr F) (c : Compiler F)
      → (compile_expr_operand host e c).bytecode
        ≡ c.bytecode ++ encode_operand floats (operand_of e)
  unfolding compile_expr_operand
  bytes_operand (int_lit n) c = bytes_imm n c
  bytes_operand (float_lit x) c = bytes_float x c
  bytes_operand (string_lit s) c = bytes_global s c
  bytes_operand (bool_lit b) c = bytes_imm (if b then pos 1 else pos 0) c
  bytes_operand null c = bytes_imm (pos 0) c
  bytes_operand (ident n) c = bytes_named n c
  bytes_operand (self_access f) c = bytes_named f c
  bytes_operand (field base f) c = bytes_named (field_name host base f) c
  bytes_operand (index a b) c = bytes_refused (index a b) c
  bytes_operand e c = bytes_refused e c

  pub bytes_operands :
      (es : List (Expr F)) (c : Compiler F)
      → (compile_operands host es c).bytecode
        ≡ c.bytecode ++ encode_operands floats (map operand_of es)
  unfolding compile_operands encode_operands
  bytes_operands [] c = simp append-nil
  bytes_operands (e ∷ es) c = simp (bytes_operands es, bytes_operand, append_assoc)

  -- An integer literal of the source is an `i64`.
  abbrev pub IsWord : Expr F → Type 0
  IsWord (int_lit n) = IsI64 n
  IsWord _ = Unit

  pub operand_of-IsEncodable : (e : Expr F) → IsWord e → IsEncodable floats (operand_of e)
  operand_of-IsEncodable (int_lit n) h = h
  operand_of-IsEncodable (bool_lit true) h = omega arith
  operand_of-IsEncodable (bool_lit false) h = omega arith
  operand_of-IsEncodable null h = omega arith
  operand_of-IsEncodable (float_lit x) h = tt
  operand_of-IsEncodable e h = tt

  pub operands-IsEncodable :
      (es : List (Expr F)) → All IsWord es → All (IsEncodable floats) (map operand_of es)
  operands-IsEncodable [] h = tt
  operands-IsEncodable (e ∷ es) h = (operand_of-IsEncodable e h.0, operands-IsEncodable es h.1)

pub ruleset bytes = (
  bytes_byte, bytes_debug, bytes_symbol, bytes_named, bytes_imm, bytes_float, bytes_type,
  bytes_role, bytes_none, bytes_global, bytes_label, bytes_jmp, bytes_cond, bytes_operand,
  bytes_operands, append_assoc, append-nil,
)
