-- ===== src/Compiler/Kept.antt =====
-- No statement changes what the checks on declarations read and write (src/compiler.rs:
-- `compile_stmt`).
use cubelang.Base.{ℕ, List, [], ◌∷◌, Bool, true, false, Option, none, some, refl, ◌∙◌}
use cubelang.Base.Text.{Text}
use cubelang.Bytecode.Op.{asm_mnemonic_to_op}
use cubelang.Syntax.Expr.{
  Span, TypeExpr, Expr, exprs, ident, self_access, index, call, method_call, array_lit, string_lit,
}
use cubelang.Syntax.Stmt.{
  OpcodeStmt, ExtArg, AsmOperand, AsmInstr, AsmBlock, AssignOp, LetStmt, AssignStmt,
}
use cubelang.Vm.State.{Host}
use cubelang.Compiler.State.{ParseError}
use cubelang.Compiler.Emit.{emit_named}
use cubelang.Compiler.Operands.{compile_expr_operand}
use cubelang.Compiler.Opcodes.{
  reg_value, reg_only, two_regs, record_filler, compile_ext_arg, compile_ext_args, compile_recall,
  compile_opcode, compile_asm_operand, compile_asm_operands, asm_error, asm_known,
  compile_asm_instr, compile_asm_instrs, compile_asm_block,
}
use cubelang.Compiler.Simple.{
  container_of, assign_register, refuse_target, set_element, assign_in, assign_element, assign_to,
  compile_assign, declare, let_call, let_array, let_len, let_index, let_value, let_method,
  let_element, let_rhs, compile_let, return_call, compile_return,
}
use cubelang.Compiler.Context.{
  context, Keeps, emitters, Keeps-named, Keeps-operand, Keeps-operands, Keeps-error, Keeps-call,
}

module _ (host : Host) where
  open host.floats use {F}

  Keeps-value :
      (code : ℕ) (verb rest reg : Text) (e : Expr F)
      → Keeps host (reg_value host code verb rest reg e)
  unfolding reg_value
  Keeps-value code verb rest reg e c = simp (emitters, Keeps-operand)

  Keeps-only : (code : ℕ) (verb reg : Text) → Keeps host (reg_only host code verb reg)
  unfolding reg_only
  Keeps-only code verb reg c = simp emitters

  Keeps-two : (code : ℕ) (verb a b : Text) → Keeps host (two_regs host code verb a b)
  unfolding two_regs
  Keeps-two code verb a b c = simp emitters

  Keeps-filler : (e : Expr F) → Keeps host (record_filler host e)
  unfolding record_filler
  Keeps-filler (string_lit s) c = simp emitters
  Keeps-filler (ident n) c = simp emitters
  Keeps-filler e c = refl

  Keeps-args : (as_ : List (ExtArg F)) → Keeps host (compile_ext_args host as_)
  unfolding compile_ext_args compile_ext_arg
  Keeps-args [] c = refl
  Keeps-args (ExtArg.reg n ∷ as_) c = Keeps-args as_ (emit_named host n c) ∙ Keeps-named host n c
  Keeps-args (ExtArg.val e ∷ as_) c =
      Keeps-args as_ (compile_expr_operand host e c) ∙ Keeps-operand host e c

  Keeps-recall : (r : Option Text) (e : Expr F) → Keeps host (compile_recall host r e)
  unfolding compile_recall
  Keeps-recall none e c = simp (emitters, Keeps-operand)
  Keeps-recall (some r) e c = simp (emitters, Keeps-operand)

  ruleset opcodes = (
    emitters, Keeps-operand, Keeps-value, Keeps-only, Keeps-two, Keeps-filler, Keeps-args,
    Keeps-recall,
  )

  pub Keeps-opcode : (o : OpcodeStmt F) → Keeps host (compile_opcode host o)
  unfolding compile_opcode
  Keeps-opcode (OpcodeStmt.create r t) c = simp opcodes
  Keeps-opcode (OpcodeStmt.assign r e) c = simp opcodes
  Keeps-opcode (OpcodeStmt.add r e) c = simp opcodes
  Keeps-opcode (OpcodeStmt.sub r e) c = simp opcodes
  Keeps-opcode (OpcodeStmt.mul r e) c = simp opcodes
  Keeps-opcode (OpcodeStmt.div r e) c = simp opcodes
  Keeps-opcode (OpcodeStmt.store r e) c = simp opcodes
  Keeps-opcode (OpcodeStmt.sum r) c = simp opcodes
  Keeps-opcode (OpcodeStmt.push r) c = simp opcodes
  Keeps-opcode (OpcodeStmt.pop r) c = simp opcodes
  Keeps-opcode (OpcodeStmt.query r) c = simp opcodes
  Keeps-opcode (OpcodeStmt.remember r) c = simp opcodes
  Keeps-opcode (OpcodeStmt.recall r e) c = simp opcodes
  Keeps-opcode (OpcodeStmt.bind r role e) c = simp opcodes
  Keeps-opcode (OpcodeStmt.unify a b) c = simp opcodes
  Keeps-opcode (OpcodeStmt.bind_role r role) c = simp opcodes
  Keeps-opcode (OpcodeStmt.compare a b) c = simp opcodes
  Keeps-opcode (OpcodeStmt.transfer a b e) c = simp opcodes
  Keeps-opcode (OpcodeStmt.extended op as_) c = simp opcodes

  Keeps-asm_operand : (o : AsmOperand F) → Keeps host (compile_asm_operand host o)
  unfolding compile_asm_operand
  Keeps-asm_operand (AsmOperand.named n) c = simp emitters
  Keeps-asm_operand (AsmOperand.role n) c = simp emitters
  Keeps-asm_operand (AsmOperand.global n) c = simp emitters
  Keeps-asm_operand (AsmOperand.imm n) c = simp emitters
  Keeps-asm_operand (AsmOperand.float_imm x) c = simp emitters

  Keeps-asm_operands : (os : List (AsmOperand F)) → Keeps host (compile_asm_operands host os)
  unfolding compile_asm_operands
  Keeps-asm_operands [] c = refl
  Keeps-asm_operands (o ∷ os) c =
      Keeps-asm_operands os (compile_asm_operand host o c) ∙ Keeps-asm_operand o c

  Keeps-asm_error : (e : ParseError F) → Keeps host (asm_error host e)
  unfolding context asm_error
  Keeps-asm_error e c = refl

  Keeps-asm_known : (k : Option ℕ) (i : AsmInstr F) → Keeps host (asm_known host k i)
  unfolding asm_known
  Keeps-asm_known none i c = Keeps-asm_error _ c
  Keeps-asm_known (some op) i c = simp (emitters, Keeps-asm_operands)

  Keeps-asm_instrs : (is : List (AsmInstr F)) → Keeps host (compile_asm_instrs host is)
  unfolding compile_asm_instrs compile_asm_instr
  Keeps-asm_instrs [] c = refl
  Keeps-asm_instrs (i ∷ is) c =
      Keeps-asm_instrs is (asm_known host (asm_mnemonic_to_op i.mnemonic) i c)
      ∙ Keeps-asm_known (asm_mnemonic_to_op i.mnemonic) i c

  pub Keeps-asm : (b : AsmBlock F) → Keeps host (compile_asm_block host b)
  unfolding compile_asm_block
  Keeps-asm b c = Keeps-asm_instrs b.instrs c

  Keeps-register :
      (op : AssignOp) (n : Text) (e : Expr F) → Keeps host (assign_register host op n e)
  unfolding assign_register
  Keeps-register op n e c = simp (emitters, Keeps-operand)

  Keeps-refused : (e : Expr F) (span : Span) → Keeps host (refuse_target host e span)
  unfolding refuse_target
  Keeps-refused e span c = Keeps-error host _ c

  Keeps-element : (n : Text) (key e : Expr F) → Keeps host (set_element host n key e)
  unfolding set_element
  Keeps-element n key e c = simp (emitters, Keeps-operand)

  Keeps-in :
      (o : Option Text) (op : AssignOp) (base key e : Expr F) (span : Span)
      → Keeps host (assign_in host o op base key e span)
  unfolding assign_in
  Keeps-in none op base key e span c = Keeps-refused _ span c
  Keeps-in (some n) AssignOp.eq base key e span c = Keeps-element n key e c
  Keeps-in (some n) op base key e span c = Keeps-error host _ c

  Keeps-to :
      (t : Expr F) (op : AssignOp) (e : Expr F) (span : Span)
      → Keeps host (assign_to host t op e span)
  unfolding assign_to assign_element
  Keeps-to (self_access f) op e span c = Keeps-register op f e c
  Keeps-to (ident n) op e span c = Keeps-register op n e c
  Keeps-to (index base key) op e span c = Keeps-in (container_of base) op base key e span c
  Keeps-to t op e span c = Keeps-refused t span c

  pub Keeps-assign : (a : AssignStmt F) → Keeps host (compile_assign host a)
  unfolding compile_assign
  Keeps-assign a c = Keeps-to a.target a.op a.value a.span c

  Keeps-let_call : (n : Text) (f : Expr F) (es : List (Expr F)) → Keeps host (let_call host n f es)
  unfolding let_call
  Keeps-let_call n f es c = simp (emitters, Keeps-call)

  Keeps-let_array : (n : Text) (es : List (Expr F)) → Keeps host (let_array host n es)
  unfolding let_array
  Keeps-let_array n es c = simp (emitters, Keeps-operands)

  Keeps-let_len : (n arr : Text) → Keeps host (let_len host n arr)
  unfolding let_len
  Keeps-let_len n arr c = simp emitters

  Keeps-let_index : (n arr : Text) (e : Expr F) → Keeps host (let_index host n arr e)
  unfolding let_index
  Keeps-let_index n arr e c = simp (emitters, Keeps-operand)

  Keeps-let_value : (n : Text) (e : Expr F) → Keeps host (let_value host n e)
  unfolding let_value
  Keeps-let_value n e c = simp (emitters, Keeps-operand)

  Keeps-let_method : (b : Bool) (n arr : Text) (e : Expr F) → Keeps host (let_method host b n arr e)
  unfolding let_method
  Keeps-let_method true n arr e c = Keeps-let_len n arr c
  Keeps-let_method false n arr e c = Keeps-let_value n e c

  Keeps-let_element :
      (o : Option Text) (n : Text) (base key : Expr F) → Keeps host (let_element host o n base key)
  unfolding let_element
  Keeps-let_element none n base key c = Keeps-let_value n _ c
  Keeps-let_element (some arr) n base key c = Keeps-let_index n arr key c

  Keeps-rhs : (n : Text) (e : Expr F) → Keeps host (let_rhs host n e)
  unfolding let_rhs
  Keeps-rhs n (call f es) c = Keeps-let_call n f (exprs es) c
  Keeps-rhs n (array_lit es) c = Keeps-let_array n (exprs es) c
  Keeps-rhs n (index base key) c = Keeps-let_element (container_of base) n base key c
  Keeps-rhs n (method_call (ident arr) m es) c = Keeps-let_method _ n arr _ c
  Keeps-rhs n e c = Keeps-let_value n e c

  Keeps-declare : (n : Text) (ty : Option TypeExpr) → Keeps host (declare host n ty)
  unfolding declare
  Keeps-declare n ty c = simp emitters

  pub Keeps-let : (l : LetStmt F) → Keeps host (compile_let host l)
  unfolding compile_let
  Keeps-let l c =
      Keeps-rhs l.name l.value (declare host l.name l.ty c) ∙ Keeps-declare l.name l.ty c

  Keeps-return_call : (f : Expr F) (es : List (Expr F)) → Keeps host (return_call host f es)
  unfolding return_call
  Keeps-return_call f es c = simp (emitters, Keeps-call)

  pub Keeps-return : (v : Option (Expr F)) → Keeps host (compile_return host v)
  unfolding compile_return
  Keeps-return none c = simp emitters
  Keeps-return (some (call f es)) c = Keeps-return_call f (exprs es) c
  Keeps-return (some e) c = simp (emitters, Keeps-operand)
