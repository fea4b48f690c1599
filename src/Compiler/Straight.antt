-- ===== src/Compiler/Straight.antt =====
-- Opcode statements as single instructions (src/compiler.rs: `compile_opcode`).
use cubelang.Base.{
  ℕ, ◌<◌, List, [], ◌∷◌, ◌++◌, none, some, length, map, ◌≡◌, refl, All, arith, append_assoc,
  append-nil, length-map,
}
use cubelang.Base.Text.{Text}
use cubelang.Bytecode.Op
use cubelang.Bytecode.Op.{asm_mnemonic_to_op}
use cubelang.Bytecode.Ext.{ExtOp, ext_bytecode}
use cubelang.Bytecode.Operand.{Operand, named, type_, role, encode_operand}
use cubelang.Bytecode.RoundTrip.{encode_operands, IsEncodable}
use cubelang.Bytecode.Code.{instr, encode_instr}
use cubelang.Syntax.Expr.{Expr, string_lit, ident}
use cubelang.Syntax.Stmt.{OpcodeStmt, ExtArg}
use cubelang.Vm.State.{Host}
use cubelang.Compiler.State.{Compiler}
use cubelang.Compiler.Emit.{Pass}
use cubelang.Compiler.Opcodes.{
  reg_value, reg_only, two_regs, record_filler, compile_ext_arg, compile_ext_args, compile_recall,
  compile_opcode,
}
use cubelang.Compiler.Bytes.{
  bytes, bytes_symbol, bytes_debug, bytes_role, bytes_named, bytes_operand, bytes_byte, operand_of,
  operand_of-IsEncodable, IsWord,
}
use cubelang.Compiler.Output.{IsPlain, One, WritesOne, writes-instr}
use cubelang.Compiler.Limits.{IsSmallArg, IsSmallOpcode}

module _ (host : Host) where
  open host use {hash, floats}
  open host.floats use {F}

  abbrev pub AreEncodable : List (Operand F) → Type 0
  AreEncodable os = All (IsEncodable floats) os

  pub on_register :
      (p : Pass host) (c : Compiler F) (op : ℕ) (n : Text) (os : List (Operand F))
      → (p c).bytecode ≡ c.bytecode ++ encode_instr floats (instr op (named (hash n) ∷ os))
      → IsPlain op
      → length os < 255
      → AreEncodable os
      → One host p c
  on_register p c op n os e plain lt ok =
      writes-instr host p c op (named (hash n) ∷ os) e plain (omega arith) (tt, ok)

  Writes-reg_value :
      (code : ℕ) (verb rest reg : Text) (e : Expr F)
      → IsPlain code
      → IsWord host e
      → WritesOne host (reg_value host code verb rest reg e)
  unfolding reg_value encode_instr encode_operands
  Writes-reg_value code verb rest reg e ne h c =
      on_register (reg_value host code verb rest reg e) c code reg (operand_of host e ∷ [])
        (simp bytes) ne (omega arith) (operand_of-IsEncodable host e h, tt)

  Writes-reg_only :
      (code : ℕ) (verb reg : Text) → IsPlain code → WritesOne host (reg_only host code verb reg)
  unfolding reg_only encode_instr encode_operands
  Writes-reg_only code verb reg ne c =
      on_register (reg_only host code verb reg) c code reg [] (simp bytes) ne (omega arith) tt

  Writes-two_regs :
      (code : ℕ) (verb a b : Text) → IsPlain code → WritesOne host (two_regs host code verb a b)
  unfolding two_regs encode_instr encode_operands
  Writes-two_regs code verb a b ne c =
      on_register (two_regs host code verb a b) c code a (named (hash b) ∷ []) (simp bytes) ne
        (omega arith) (tt, tt)

  abbrev arg_operand : ExtArg F → Operand F
  arg_operand (ExtArg.reg name) = named (hash name)
  arg_operand (ExtArg.val e) = operand_of host e

  bytes_arg :
      (a : ExtArg F) (c : Compiler F)
      → (compile_ext_arg host a c).bytecode ≡ c.bytecode ++ encode_operand floats (arg_operand a)
  unfolding compile_ext_arg
  bytes_arg (ExtArg.reg name) c = bytes_named host name c
  bytes_arg (ExtArg.val e) c = bytes_operand host e c

  bytes_args :
      (args : List (ExtArg F)) (c : Compiler F)
      → (compile_ext_args host args c).bytecode
        ≡ c.bytecode ++ encode_operands floats (map arg_operand args)
  unfolding compile_ext_args encode_operands
  bytes_args [] c = simp bytes
  bytes_args (a ∷ args) c = simp (bytes_args args, bytes_arg, append_assoc)

  args-AreEncodable :
      (args : List (ExtArg F)) → All (IsSmallArg host) args → AreEncodable (map arg_operand args)
  args-AreEncodable [] h = tt
  args-AreEncodable (ExtArg.reg name ∷ args) h = (tt, args-AreEncodable args h.1)
  args-AreEncodable (ExtArg.val e ∷ args) h =
      (operand_of-IsEncodable host e h.0, args-AreEncodable args h.1)

  -- No extended opcode is SKIP or a jump.
  ext_bytecode-IsPlain : (op : ExtOp) → IsPlain (ext_bytecode op)
  unfolding ext_bytecode
  ext_bytecode-IsPlain ExtOp.infer = refl
  ext_bytecode-IsPlain ExtOp.map_roles = refl
  ext_bytecode-IsPlain ExtOp.filter = refl
  ext_bytecode-IsPlain ExtOp.score = refl
  ext_bytecode-IsPlain ExtOp.detect_pattern = refl
  ext_bytecode-IsPlain ExtOp.decode = refl
  ext_bytecode-IsPlain ExtOp.reduce = refl
  ext_bytecode-IsPlain ExtOp.merge = refl
  ext_bytecode-IsPlain ExtOp.split = refl
  ext_bytecode-IsPlain ExtOp.debate = refl
  ext_bytecode-IsPlain ExtOp.predict = refl
  ext_bytecode-IsPlain ExtOp.discover = refl
  ext_bytecode-IsPlain ExtOp.diff = refl
  ext_bytecode-IsPlain ExtOp.seq = refl
  ext_bytecode-IsPlain ExtOp.specialize = refl
  ext_bytecode-IsPlain ExtOp.reward = refl
  ext_bytecode-IsPlain ExtOp.match = refl
  ext_bytecode-IsPlain ExtOp.push = refl
  ext_bytecode-IsPlain ExtOp.sum = refl
  ext_bytecode-IsPlain ExtOp.compare = refl
  ext_bytecode-IsPlain ExtOp.temporal_bind = refl
  ext_bytecode-IsPlain ExtOp.analogy = refl
  ext_bytecode-IsPlain ExtOp.gen = refl
  ext_bytecode-IsPlain ExtOp.inst = refl
  ext_bytecode-IsPlain ExtOp.broadcast = refl
  ext_bytecode-IsPlain ExtOp.explore = refl
  ext_bytecode-IsPlain ExtOp.forge = refl
  ext_bytecode-IsPlain ExtOp.ask = refl
  ext_bytecode-IsPlain ExtOp.sync = refl
  ext_bytecode-IsPlain ExtOp.forget = refl

  Writes-extended :
      (op : ExtOp) (args : List (ExtArg F))
      → length args < 256
      → All (IsSmallArg host) args
      → WritesOne host (compile_opcode host (OpcodeStmt.extended op args))
  unfolding compile_opcode encode_instr
  Writes-extended op args lt ok c =
      let plain = ext_bytecode-IsPlain op in
      writes-instr host (compile_opcode host (OpcodeStmt.extended op args)) c (ext_bytecode op)
        (map arg_operand args)
        (simp (bytes_args, bytes_byte, bytes_debug, append_assoc, length-map)) plain
        (omega (arith, length-map arg_operand args)) (args-AreEncodable args ok)

  bytes_filler : (e : Expr F) (c : Compiler F) → (record_filler host e c).bytecode ≡ c.bytecode
  unfolding record_filler
  bytes_filler (string_lit s) c = bytes_symbol host s c
  bytes_filler (ident n) c = bytes_symbol host n c
  bytes_filler e c = refl

  -- Every opcode statement is one instruction.
  pub Writes-compile_opcode :
      (o : OpcodeStmt F) → IsSmallOpcode host o → WritesOne host (compile_opcode host o)
  unfolding compile_opcode compile_recall encode_instr encode_operands
  Writes-compile_opcode (OpcodeStmt.create reg ty) h c =
      on_register (compile_opcode host (OpcodeStmt.create reg ty)) c Op.create reg
        (type_ (hash ty) ∷ []) (simp bytes) refl (omega arith) (tt, tt)
  Writes-compile_opcode (OpcodeStmt.assign reg e) h c =
      Writes-reg_value Op.assign _ _ reg e refl h c
  Writes-compile_opcode (OpcodeStmt.add reg e) h c = Writes-reg_value Op.add _ _ reg e refl h c
  Writes-compile_opcode (OpcodeStmt.sub reg e) h c = Writes-reg_value Op.sub _ _ reg e refl h c
  Writes-compile_opcode (OpcodeStmt.mul reg e) h c = Writes-reg_value Op.mul _ _ reg e refl h c
  Writes-compile_opcode (OpcodeStmt.div reg e) h c = Writes-reg_value Op.div _ _ reg e refl h c
  Writes-compile_opcode (OpcodeStmt.store reg e) h c = Writes-reg_value Op.store _ _ reg e refl h c
  Writes-compile_opcode (OpcodeStmt.sum reg) h c = Writes-reg_only Op.sum _ reg refl c
  Writes-compile_opcode (OpcodeStmt.push reg) h c = Writes-reg_only Op.push _ reg refl c
  Writes-compile_opcode (OpcodeStmt.pop reg) h c = Writes-reg_only Op.pop _ reg refl c
  Writes-compile_opcode (OpcodeStmt.query reg) h c = Writes-reg_only Op.query _ reg refl c
  Writes-compile_opcode (OpcodeStmt.remember reg) h c = Writes-reg_only Op.remember _ reg refl c
  Writes-compile_opcode (OpcodeStmt.unify a b) h c = Writes-two_regs Op.unify _ a b refl c
  Writes-compile_opcode (OpcodeStmt.compare a b) h c = Writes-two_regs Op.compare _ a b refl c
  Writes-compile_opcode (OpcodeStmt.recall (some r) key) h c =
      on_register (compile_opcode host (OpcodeStmt.recall (some r) key)) c Op.recall r
        (operand_of host key ∷ []) (simp bytes) refl (omega arith)
        (operand_of-IsEncodable host key h, tt)
  Writes-compile_opcode (OpcodeStmt.recall none key) h c =
      writes-instr host (compile_opcode host (OpcodeStmt.recall none key)) c Op.recall
        (operand_of host key ∷ []) (simp bytes) refl (omega arith)
        (operand_of-IsEncodable host key h, tt)
  Writes-compile_opcode (OpcodeStmt.bind reg role_name val) h c =
      on_register (compile_opcode host (OpcodeStmt.bind reg role_name val)) c Op.bind_role reg
        (role (hash role_name) ∷ operand_of host val ∷ [])
        (simp (
          bytes_filler, bytes_operand, bytes_named, bytes_role, bytes_byte, bytes_symbol,
          bytes_debug, append_assoc, append-nil,
        ))
        refl (omega arith) (tt, (operand_of-IsEncodable host val h, tt))
  Writes-compile_opcode (OpcodeStmt.bind_role reg role_name) h c =
      on_register (compile_opcode host (OpcodeStmt.bind_role reg role_name)) c Op.bind_role reg
        (role (hash role_name) ∷ named (hash reg) ∷ []) (simp bytes) refl (omega arith)
        (tt, (tt, tt))
  Writes-compile_opcode (OpcodeStmt.transfer src dst amount) h c =
      on_register (compile_opcode host (OpcodeStmt.transfer src dst amount)) c Op.transfer src
        (named (hash dst) ∷ operand_of host amount ∷ []) (simp bytes) refl (omega arith)
        (tt, (operand_of-IsEncodable host amount h, tt))
  Writes-compile_opcode (OpcodeStmt.extended op args) h c = Writes-extended op args h.0 h.1 c
