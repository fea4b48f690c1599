-- ===== src/Compiler/Emit.antt =====
-- Emission of bytes, operands and labels (src/compiler.rs: `emit_*`, `fresh_label`,
-- `record_symbol`).
use cubelang.Base.{ℕ, ◌+◌, ◌%◌, ◌^◌, List, [], ◌∷◌, ◌++◌, any, length, if◌then◌else◌, ◌▷◌}
use cubelang.Base.Int.{ℤ, to_u64, le_bytes}
use cubelang.Base.Text.{Text, lit, show_nat}
use cubelang.Base.Equal.{list_eq}
use cubelang.Bytecode.Op
use cubelang.Bytecode.Operand.{
  op_named, op_imm, op_type, op_role, op_global, op_float, op_none, Hash,
}
use cubelang.Vm.State.{Host}
use cubelang.Compiler.State.{Compiler}

module _ (host : Host) where
  open host use {hash}
  open host.floats use {F, to_bits}

  -- A part of the compilation.
  abbrev pub Pass : Type 0
  Pass = Compiler F → Compiler F

  unfoldable pub emit_byte : ℕ → Pass
  emit_byte b c = record c { bytecode = c.bytecode ++ b ∷ [] }

  unfoldable pub emit_bytes : List ℕ → Pass
  emit_bytes [] c = c
  emit_bytes (b ∷ bs) c = emit_bytes bs (emit_byte b c)

  unfoldable pub emit_hash : Hash → Pass
  emit_hash h c = c ▷ emit_byte h.0 ▷ emit_byte h.1

  unfoldable pub emit_named : Text → Pass
  emit_named name c = c ▷ emit_byte op_named ▷ emit_hash (hash name)

  unfoldable pub emit_imm : ℤ → Pass
  emit_imm n c = c ▷ emit_byte op_imm ▷ emit_bytes (le_bytes 8 (to_u64 n))

  unfoldable pub emit_float_imm : F → Pass
  emit_float_imm x c = c ▷ emit_byte op_float ▷ emit_bytes (le_bytes 8 (to_bits x))

  unfoldable pub emit_type : Text → Pass
  emit_type ty c = c ▷ emit_byte op_type ▷ emit_hash (hash ty)

  unfoldable pub emit_role : Text → Pass
  emit_role role c = c ▷ emit_byte op_role ▷ emit_hash (hash role)

  -- The operand that encodes nothing.
  unfoldable pub emit_none : Pass
  emit_none c = c ▷ emit_byte op_none ▷ emit_byte 0x00 ▷ emit_byte 0x00

  unfoldable pub record_symbol : Text → Pass
  record_symbol name c =
      if any (λ s. list_eq s name) c.symbol_names
      then c
      else record c { symbol_names = c.symbol_names ++ name ∷ [] }

  unfoldable pub emit_global : Text → Pass
  emit_global name c = c ▷ record_symbol name ▷ emit_byte op_global ▷ emit_hash (hash name)

  unfoldable pub emit_debug : ℕ → Text → Pass
  emit_debug code description c = record c {
    debug_lines =
        c.debug_lines
        ++ (record { offset = length c.bytecode; opcode = code; description = description }) ∷ [];
  }

  unfoldable pub emit_label : Text → Pass
  emit_label name c =
      (record c { labels = c.labels ++ (name, length c.bytecode) ∷ [] })
      ▷ emit_debug Op.label name
      ▷ emit_byte Op.label
      ▷ emit_byte 1
      ▷ emit_global name

  unfoldable pub emit_jmp : Text → Pass
  emit_jmp label c = c ▷ emit_byte Op.jmp ▷ emit_byte 1 ▷ emit_global label

  unfoldable pub emit_cond_jump : Text → Pass
  emit_cond_jump label c =
      c
      ▷ emit_debug Op.cond (lit "cond -> " ++ label)
      ▷ emit_byte Op.cond
      ▷ emit_byte 1
      ▷ emit_global label

  -- The counter is a `u32`.
  abbrev pub next_id : Compiler F → ℕ
  next_id c = (c.label_counter + 1) % 2 ^ 32

  abbrev pub count : Pass
  count c = record c { label_counter = next_id c }

  abbrev pub label_name : Text → ℕ → Text
  label_name prefix n = lit "_" ++ (prefix ++ (lit "_" ++ show_nat n))

  unfoldable pub fresh_label : Text → Compiler F → Text × Compiler F
  fresh_label prefix c = (label_name prefix (next_id c), count c)
