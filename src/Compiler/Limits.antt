-- ===== src/Compiler/Limits.antt =====
-- What source code must keep to for its bytecode to be well formed: integer literals are `i64`s,
-- operand counts fit a byte, and `asm` blocks hold no SKIP and no jump.
use cubelang.Base.{ℕ, ◌<◌, List, Option, none, some, length, All, ◌≢◌}
use cubelang.Base.Int.{IsI64}
use cubelang.Bytecode.Op
use cubelang.Bytecode.Op.{asm_mnemonic_to_op}
use cubelang.Syntax.Expr.{Expr, exprs, index, call, method_call, array_lit, bin_op}
use cubelang.Syntax.Stmt.{
  OpcodeStmt, ExtArg, AsmOperand, AsmInstr, Stmt, Stmts, OptStmts, Arms, let_, assign, if_, for_,
  while_, match_, return, throw, emit, opcode, expr, try_catch, assert, atomic, rollback, commit,
  asm, no_stmts, more_stmts, absent, present, no_arms, more_arms,
}
use cubelang.Vm.State.{Host}
use cubelang.Compiler.Bytes.{IsWord}

module _ (host : Host) where
  open host.floats use {F}

  abbrev pub IsShort : List (Expr F) → Type 0
  IsShort es = (length es < 254) × All (IsWord host) es

  -- An expression with the operands that it is lowered to.
  abbrev pub IsSmall : Expr F → Type 0
  IsSmall (call callee es) = IsShort (exprs es)
  IsSmall (method_call e m es) = IsShort (exprs es)
  IsSmall (array_lit es) = IsShort (exprs es)
  IsSmall (index base key) = IsWord host key
  IsSmall (bin_op a op b) = IsWord host a × IsWord host b
  IsSmall e = IsWord host e

  abbrev pub IsSmallArg : ExtArg F → Type 0
  IsSmallArg (ExtArg.reg name) = Unit
  IsSmallArg (ExtArg.val e) = IsWord host e

  abbrev pub IsSmallOpcode : OpcodeStmt F → Type 0
  IsSmallOpcode (OpcodeStmt.assign r v) = IsWord host v
  IsSmallOpcode (OpcodeStmt.add r v) = IsWord host v
  IsSmallOpcode (OpcodeStmt.sub r v) = IsWord host v
  IsSmallOpcode (OpcodeStmt.mul r v) = IsWord host v
  IsSmallOpcode (OpcodeStmt.div r v) = IsWord host v
  IsSmallOpcode (OpcodeStmt.store r v) = IsWord host v
  IsSmallOpcode (OpcodeStmt.recall r v) = IsWord host v
  IsSmallOpcode (OpcodeStmt.bind r role v) = IsWord host v
  IsSmallOpcode (OpcodeStmt.transfer a b v) = IsWord host v
  IsSmallOpcode (OpcodeStmt.extended op args) = (length args < 256) × All IsSmallArg args
  IsSmallOpcode _ = Unit

  abbrev pub IsAsmWord : AsmOperand F → Type 0
  IsAsmWord (AsmOperand.imm n) = IsI64 n
  IsAsmWord _ = Unit

  abbrev pub IsStraight : Option ℕ → Type 0
  IsStraight none = Unit
  IsStraight (some op) = (op ≢ Op.skip) × (op ≢ Op.jmp) × (op ≢ Op.cond)

  abbrev pub IsSmallAsm : AsmInstr F → Type 0
  IsSmallAsm i =
      IsStraight (asm_mnemonic_to_op i.mnemonic)
      × (length i.operands < 256)
      × All IsAsmWord i.operands

  abbrev pub IsSmallValue : Option (Expr F) → Type 0
  IsSmallValue none = Unit
  IsSmallValue (some e) = IsSmall e

  abbrev mutual
    pub IsSmallStmt : Stmt F → Type 0
    IsSmallStmt (let_ l) = IsSmall l.value
    IsSmallStmt (assign a) = IsSmall a.target × IsWord host a.value
    IsSmallStmt (if_ e ts es span) = IsSmall e × AreSmall ts × AreSmallOpt es
    IsSmallStmt (for_ b e ss span) = IsSmall e × AreSmall ss
    IsSmallStmt (while_ e ss span) = IsSmall e × AreSmall ss
    IsSmallStmt (match_ e arms span) = IsWord host e × AreSmallArms arms
    IsSmallStmt (return v) = IsSmallValue v
    IsSmallStmt (throw e) = Unit
    IsSmallStmt (emit e) = Unit
    IsSmallStmt (opcode o) = IsSmallOpcode o
    IsSmallStmt (expr e) = IsSmall e
    IsSmallStmt (try_catch ts b cs fs span) = AreSmall ts × AreSmall cs × AreSmallOpt fs
    IsSmallStmt (assert a) = IsSmall a.condition
    IsSmallStmt (atomic ss span) = AreSmall ss
    IsSmallStmt rollback = Unit
    IsSmallStmt commit = Unit
    IsSmallStmt (asm b) = All IsSmallAsm b.instrs

    pub AreSmall : Stmts F → Type 0
    AreSmall no_stmts = Unit
    AreSmall (more_stmts s ss) = IsSmallStmt s × AreSmall ss

    pub AreSmallOpt : OptStmts F → Type 0
    AreSmallOpt absent = Unit
    AreSmallOpt (present ss) = AreSmall ss

    pub AreSmallArms : Arms F → Type 0
    AreSmallArms no_arms = Unit
    AreSmallArms (more_arms p ss arms) = IsWord host p × AreSmall ss × AreSmallArms arms
