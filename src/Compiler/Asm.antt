-- ===== src/Compiler/Asm.antt =====
-- `asm` blocks as single instructions (src/compiler.rs: `compile_asm_block`).
use cubelang.Base.{
  ℕ, ◌<◌, List, [], ◌∷◌, ◌++◌, Option, none, some, length, map, ◌≡◌, refl, All, arith, append_assoc,
  append-nil, length-map,
}
use cubelang.Bytecode.Op.{asm_mnemonic_to_op}
use cubelang.Bytecode.Operand.{Operand, named, imm, float_imm, role, global, encode_operand}
use cubelang.Bytecode.RoundTrip.{encode_operands}
use cubelang.Bytecode.Code.{encode_instr}
use cubelang.Syntax.Stmt.{AsmOperand, AsmInstr, AsmBlock}
use cubelang.Vm.State.{Host}
use cubelang.Compiler.State.{Compiler}
use cubelang.Compiler.Opcodes.{
  compile_asm_operand, compile_asm_operands, asm_error, asm_known, compile_asm_instr,
  compile_asm_instrs, compile_asm_block,
}
use cubelang.Compiler.Bytes.{
  bytes_symbol, bytes_debug, bytes_role, bytes_named, bytes_imm, bytes_float, bytes_global,
  bytes_byte,
}
use cubelang.Compiler.Output.{
  IsPlain, WritesClosed, WritesClosed-then, writes-instr, WritesOne-closed, Wrote-none,
}
use cubelang.Compiler.Limits.{IsAsmWord, IsSmallAsm, IsStraight}
use cubelang.Compiler.Straight.{AreEncodable}

module _ (host : Host) where
  open host use {hash, floats}
  open host.floats use {F}

  abbrev asm_operand : AsmOperand F → Operand F
  asm_operand (AsmOperand.named n) = named (hash n)
  asm_operand (AsmOperand.role n) = role (hash n)
  asm_operand (AsmOperand.global s) = global (hash s)
  asm_operand (AsmOperand.imm n) = imm n
  asm_operand (AsmOperand.float_imm x) = float_imm x

  bytes_asm_operand :
      (o : AsmOperand F) (c : Compiler F)
      → (compile_asm_operand host o c).bytecode
        ≡ c.bytecode ++ encode_operand floats (asm_operand o)
  unfolding compile_asm_operand
  bytes_asm_operand (AsmOperand.named n) c = bytes_named host n c
  bytes_asm_operand (AsmOperand.role n) c = simp (bytes_role, bytes_symbol)
  bytes_asm_operand (AsmOperand.global s) c = bytes_global host s c
  bytes_asm_operand (AsmOperand.imm n) c = bytes_imm host n c
  bytes_asm_operand (AsmOperand.float_imm x) c = bytes_float host x c

  bytes_asm_operands :
      (os : List (AsmOperand F)) (c : Compiler F)
      → (compile_asm_operands host os c).bytecode
        ≡ c.bytecode ++ encode_operands floats (map asm_operand os)
  unfolding compile_asm_operands encode_operands
  bytes_asm_operands [] c = simp append-nil
  bytes_asm_operands (o ∷ os) c = simp (bytes_asm_operands os, bytes_asm_operand, append_assoc)

  asm-AreEncodable :
      (os : List (AsmOperand F)) → All (IsAsmWord host) os → AreEncodable host (map asm_operand os)
  asm-AreEncodable [] h = tt
  asm-AreEncodable (AsmOperand.named n ∷ os) h = (tt, asm-AreEncodable os h.1)
  asm-AreEncodable (AsmOperand.role n ∷ os) h = (tt, asm-AreEncodable os h.1)
  asm-AreEncodable (AsmOperand.global s ∷ os) h = (tt, asm-AreEncodable os h.1)
  asm-AreEncodable (AsmOperand.imm n ∷ os) h = (h.0, asm-AreEncodable os h.1)
  asm-AreEncodable (AsmOperand.float_imm x ∷ os) h = (tt, asm-AreEncodable os h.1)

  IsStraight-IsPlain : (op : ℕ) → IsStraight host (some op) → IsPlain op
  IsStraight-IsPlain op h = ground arith

  Writes-asm_known :
      (known : Option ℕ) (i : AsmInstr F)
      → IsStraight host known
      → length i.operands < 256
      → All (IsAsmWord host) i.operands
      → WritesClosed host (asm_known host known i)
  unfolding asm_known asm_error encode_instr
  Writes-asm_known none i straight lt ok c =
      ([], Wrote-none host c (asm_known host none i c) refl, tt)
  Writes-asm_known (some op) i straight lt ok c =
      WritesOne-closed host (asm_known host (some op) i)
        (λ c.
          writes-instr host (asm_known host (some op) i) c op (map asm_operand i.operands)
            (simp (bytes_asm_operands, bytes_byte, bytes_debug, append_assoc, length-map))
            (IsStraight-IsPlain op straight) (omega (arith, length-map asm_operand i.operands))
            (asm-AreEncodable i.operands ok))
        c

  Writes-compile_asm_instr :
      (i : AsmInstr F) → IsSmallAsm host i → WritesClosed host (compile_asm_instr host i)
  unfolding compile_asm_instr
  Writes-compile_asm_instr i h = Writes-asm_known (asm_mnemonic_to_op i.mnemonic) i h.0 h.1 h.2

  Writes-compile_asm_instrs :
      (is : List (AsmInstr F))
      → All (IsSmallAsm host) is
      → WritesClosed host (compile_asm_instrs host is)
  unfolding compile_asm_instrs
  Writes-compile_asm_instrs [] h c = ([], Wrote-none host c c refl, tt)
  Writes-compile_asm_instrs (i ∷ is) h c =
      WritesClosed-then host (compile_asm_instr host i) (compile_asm_instrs host is)
        (Writes-compile_asm_instr i h.0) (Writes-compile_asm_instrs is h.1) c

  pub Writes-compile_asm_block :
      (b : AsmBlock F)
      → All (IsSmallAsm host) b.instrs
      → WritesClosed host (compile_asm_block host b)
  unfolding compile_asm_block
  Writes-compile_asm_block b h = Writes-compile_asm_instrs b.instrs h
