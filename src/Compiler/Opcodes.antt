-- ===== src/Compiler/Opcodes.antt =====
-- Opcode statements and `asm` blocks (src/compiler.rs: `compile_opcode`, `compile_asm_block`).
use cubelang.Base.{ℕ, ◌%◌, List, [], ◌∷◌, ◌++◌, Option, none, some, length, ◌▷◌}
use cubelang.Base.Text.{Text, lit, show_nat}
use cubelang.Bytecode.Op
use cubelang.Bytecode.Op.{asm_mnemonic_to_op}
use cubelang.Bytecode.Ext.{ExtOp, ext_bytecode}
use cubelang.Syntax.Expr.{Expr, string_lit, ident}
use cubelang.Syntax.Stmt.{OpcodeStmt, ExtArg, AsmOperand, AsmInstr, AsmBlock}
use cubelang.Vm.State.{Host}
use cubelang.Compiler.State.{ParseError, unknown_mnemonic}
use cubelang.Compiler.Emit.{
  Pass, emit_byte, emit_named, emit_imm, emit_float_imm, emit_type, emit_role, emit_global,
  emit_debug, record_symbol,
}
use cubelang.Compiler.Operands.{compile_expr_operand}

-- The derived `{:?}` of an extended opcode.
unfoldable pub show_ext_op : ExtOp → Text
show_ext_op ExtOp.infer = lit "Infer"
show_ext_op ExtOp.map_roles = lit "MapRoles"
show_ext_op ExtOp.filter = lit "Filter"
show_ext_op ExtOp.score = lit "Score"
show_ext_op ExtOp.detect_pattern = lit "DetectPattern"
show_ext_op ExtOp.decode = lit "Decode"
show_ext_op ExtOp.reduce = lit "Reduce"
show_ext_op ExtOp.merge = lit "Merge"
show_ext_op ExtOp.split = lit "Split"
show_ext_op ExtOp.debate = lit "Debate"
show_ext_op ExtOp.predict = lit "Predict"
show_ext_op ExtOp.discover = lit "Discover"
show_ext_op ExtOp.diff = lit "Diff"
show_ext_op ExtOp.seq = lit "Seq"
show_ext_op ExtOp.specialize = lit "Specialize"
show_ext_op ExtOp.reward = lit "Reward"
show_ext_op ExtOp.match = lit "Match"
show_ext_op ExtOp.push = lit "Push"
show_ext_op ExtOp.sum = lit "Sum"
show_ext_op ExtOp.compare = lit "Compare"
show_ext_op ExtOp.temporal_bind = lit "TemporalBind"
show_ext_op ExtOp.analogy = lit "Analogy"
show_ext_op ExtOp.gen = lit "Gen"
show_ext_op ExtOp.inst = lit "Inst"
show_ext_op ExtOp.broadcast = lit "Broadcast"
show_ext_op ExtOp.explore = lit "Explore"
show_ext_op ExtOp.forge = lit "Forge"
show_ext_op ExtOp.ask = lit "Ask"
show_ext_op ExtOp.sync = lit "Sync"
show_ext_op ExtOp.forget = lit "Forget"

module _ (host : Host) where
  open host.floats use {F}

  -- `verb reg, ...`: the opcode on a register and a value.
  unfoldable pub reg_value : ℕ → Text → Text → Text → Expr F → Pass host
  reg_value code verb rest reg value c =
      c
      ▷ emit_debug host code (verb ++ (reg ++ rest))
      ▷ emit_byte host code
      ▷ emit_byte host 2
      ▷ emit_named host reg
      ▷ compile_expr_operand host value

  unfoldable pub reg_only : ℕ → Text → Text → Pass host
  reg_only code verb reg c =
      c
      ▷ emit_debug host code (verb ++ reg)
      ▷ emit_byte host code
      ▷ emit_byte host 1
      ▷ emit_named host reg

  unfoldable pub two_regs : ℕ → Text → Text → Text → Pass host
  two_regs code verb a b c =
      c
      ▷ emit_debug host code (verb ++ (a ++ (lit " " ++ b)))
      ▷ emit_byte host code
      ▷ emit_byte host 2
      ▷ emit_named host a
      ▷ emit_named host b

  -- Only a literal or a name has a spelling to record.
  unfoldable pub record_filler : Expr F → Pass host
  record_filler (string_lit s) = record_symbol host s
  record_filler (ident n) = record_symbol host n
  record_filler _ = λ c. c

  unfoldable pub compile_ext_arg : ExtArg F → Pass host
  compile_ext_arg (ExtArg.reg name) = emit_named host name
  compile_ext_arg (ExtArg.val e) = compile_expr_operand host e

  unfoldable pub compile_ext_args : List (ExtArg F) → Pass host
  compile_ext_args [] c = c
  compile_ext_args (a ∷ as_) c = compile_ext_args as_ (compile_ext_arg a c)

  unfoldable pub compile_recall : Option Text → Expr F → Pass host
  compile_recall (some r) key c =
      c ▷ emit_byte host 2 ▷ emit_named host r ▷ compile_expr_operand host key
  compile_recall none key c = c ▷ emit_byte host 1 ▷ compile_expr_operand host key

  unfoldable pub compile_opcode : OpcodeStmt F → Pass host
  compile_opcode (OpcodeStmt.create reg ty) c =
      c
      ▷ emit_debug host Op.create (lit "create " ++ (reg ++ (lit " : " ++ ty)))
      ▷ emit_byte host Op.create
      ▷ emit_byte host 2
      ▷ emit_named host reg
      ▷ emit_type host ty
  compile_opcode (OpcodeStmt.assign reg value) c =
      reg_value Op.assign (lit "assign ") (lit " = ...") reg value c
  compile_opcode (OpcodeStmt.add reg value) c =
      reg_value Op.add (lit "add ") (lit ", ...") reg value c
  compile_opcode (OpcodeStmt.sub reg value) c =
      reg_value Op.sub (lit "sub ") (lit ", ...") reg value c
  compile_opcode (OpcodeStmt.mul reg value) c =
      reg_value Op.mul (lit "mul ") (lit ", ...") reg value c
  compile_opcode (OpcodeStmt.div reg value) c =
      reg_value Op.div (lit "div ") (lit ", ...") reg value c
  compile_opcode (OpcodeStmt.sum reg) c = reg_only Op.sum (lit "sum ") reg c
  compile_opcode (OpcodeStmt.push reg) c = reg_only Op.push (lit "push ") reg c
  compile_opcode (OpcodeStmt.pop reg) c = reg_only Op.pop (lit "pop ") reg c
  compile_opcode (OpcodeStmt.query reg) c = reg_only Op.query (lit "query ") reg c
  compile_opcode (OpcodeStmt.remember reg) c = reg_only Op.remember (lit "remember ") reg c
  compile_opcode (OpcodeStmt.store reg key) c =
      reg_value Op.store (lit "store ") (lit ", ...") reg key c
  compile_opcode (OpcodeStmt.recall reg key) c =
      c
      ▷ emit_debug host Op.recall (lit "recall ...")
      ▷ emit_byte host Op.recall
      ▷ compile_recall reg key
  compile_opcode (OpcodeStmt.bind reg role val) c =
      c
      ▷ emit_debug host Op.bind_role (lit "bind " ++ (reg ++ (lit " " ++ (role ++ lit " ..."))))
      ▷ record_symbol host role
      ▷ record_filler val
      ▷ emit_byte host Op.bind_role
      ▷ emit_byte host 3
      ▷ emit_named host reg
      ▷ emit_role host role
      ▷ compile_expr_operand host val
  compile_opcode (OpcodeStmt.unify a b) c = two_regs Op.unify (lit "unify ") a b c
  compile_opcode (OpcodeStmt.bind_role reg role) c =
      c
      ▷ emit_debug host Op.bind_role (lit "bind_role " ++ (reg ++ (lit " " ++ role)))
      ▷ record_symbol host role
      ▷ record_symbol host reg
      ▷ emit_byte host Op.bind_role
      ▷ emit_byte host 3
      ▷ emit_named host reg
      ▷ emit_role host role
      ▷ emit_named host reg
  compile_opcode (OpcodeStmt.transfer src dst amount) c =
      c
      ▷ emit_debug host Op.transfer (lit "transfer " ++ (src ++ (lit " " ++ (dst ++ lit " ..."))))
      ▷ emit_byte host Op.transfer
      ▷ emit_byte host 3
      ▷ emit_named host src
      ▷ emit_named host dst
      ▷ compile_expr_operand host amount
  compile_opcode (OpcodeStmt.compare a b) c = two_regs Op.compare (lit "compare ") a b c
  compile_opcode (OpcodeStmt.extended ext args) c =
      c
      ▷ emit_debug host (ext_bytecode ext)
          (show_ext_op ext ++ (lit " (" ++ (show_nat (length args) ++ lit " args)")))
      ▷ emit_byte host (ext_bytecode ext)
      ▷ emit_byte host (length args % 256)
      ▷ compile_ext_args args

  unfoldable pub compile_asm_operand : AsmOperand F → Pass host
  compile_asm_operand (AsmOperand.named name) = emit_named host name
  compile_asm_operand (AsmOperand.role name) =
      λ c. c ▷ record_symbol host name ▷ emit_role host name
  compile_asm_operand (AsmOperand.global s) = emit_global host s
  compile_asm_operand (AsmOperand.imm n) = emit_imm host n
  compile_asm_operand (AsmOperand.float_imm x) = emit_float_imm host x

  unfoldable pub compile_asm_operands : List (AsmOperand F) → Pass host
  compile_asm_operands [] c = c
  compile_asm_operands (o ∷ os) c = compile_asm_operands os (compile_asm_operand o c)

  unfoldable pub asm_error : ParseError F → Pass host
  asm_error e c = record c { asm_errors = c.asm_errors ++ e ∷ [] }

  abbrev pub asm_text : Text → ℕ → Text
  asm_text mnemonic n = lit "asm " ++ (mnemonic ++ (lit " (" ++ (show_nat n ++ lit " operand(s))")))

  -- An unknown mnemonic is an error, and emits nothing.
  unfoldable pub asm_known : Option ℕ → AsmInstr F → Pass host
  asm_known none instr =
      asm_error (record { message = unknown_mnemonic instr.mnemonic; span = instr.span })
  asm_known (some opcode) instr = λ c.
      c
      ▷ emit_debug host opcode (asm_text instr.mnemonic (length instr.operands))
      ▷ emit_byte host opcode
      ▷ emit_byte host (length instr.operands % 256)
      ▷ compile_asm_operands instr.operands

  unfoldable pub compile_asm_instr : AsmInstr F → Pass host
  compile_asm_instr instr = asm_known (asm_mnemonic_to_op instr.mnemonic) instr

  unfoldable pub compile_asm_instrs : List (AsmInstr F) → Pass host
  compile_asm_instrs [] c = c
  compile_asm_instrs (i ∷ is) c = compile_asm_instrs is (compile_asm_instr i c)

  unfoldable pub compile_asm_block : AsmBlock F → Pass host
  compile_asm_block block = compile_asm_instrs block.instrs
