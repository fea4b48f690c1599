-- ===== src/Compiler/Assigns.antt =====
-- Assignments as instructions with no jump (src/compiler.rs: `compile_assign`).
use cubelang.Base.{[], ◌∷◌, Option, none, some, refl, arith}
use cubelang.Base.Text.{Text}
use cubelang.Bytecode.Op
use cubelang.Bytecode.RoundTrip.{encode_operands}
use cubelang.Bytecode.Code.{encode_instr}
use cubelang.Syntax.Expr.{Span, Expr, ident, self_access, index}
use cubelang.Syntax.Stmt.{AssignOp, AssignStmt}
use cubelang.Vm.State.{Host}
use cubelang.Compiler.Operands.{operand_error}
use cubelang.Compiler.Bytes.{bytes, operand_of, operand_of-IsEncodable, IsWord}
use cubelang.Compiler.Output.{IsPlain, Writes-nothing, target, WritesClosed, WritesOne-closed}
use cubelang.Compiler.Limits.{IsSmall}
use cubelang.Compiler.Straight.{on_register}
use cubelang.Compiler.Simple.{
  assign_opcode, container_of, assign_register, refuse_target, set_element, assign_in,
  assign_element, assign_to, compile_assign,
}

module _ (host : Host) where
  open host use {hash, floats}
  open host.floats use {F}

  assign_opcode-op : (op : AssignOp) → IsPlain (assign_opcode op)
  unfolding assign_opcode
  assign_opcode-op AssignOp.eq = refl
  assign_opcode-op AssignOp.plus_eq = refl
  assign_opcode-op AssignOp.minus_eq = refl
  assign_opcode-op AssignOp.star_eq = refl
  assign_opcode-op AssignOp.slash_eq = refl

  Writes-assign_register :
      (op : AssignOp) (n : Text) (e : Expr F)
      → IsWord host e
      → WritesClosed host (assign_register host op n e)
  unfolding assign_register encode_instr encode_operands
  Writes-assign_register op n e h = WritesOne-closed host (assign_register host op n e) (λ c.
      on_register host (assign_register host op n e) c (assign_opcode op) n (operand_of host e ∷ [])
        (simp bytes) (assign_opcode-op op) (omega arith) (operand_of-IsEncodable host e h, tt))

  Writes-set_element :
      (n : Text) (key e : Expr F)
      → IsWord host key
      → IsWord host e
      → WritesClosed host (set_element host n key e)
  unfolding set_element encode_instr encode_operands
  Writes-set_element n key e hk he = WritesOne-closed host (set_element host n key e) (λ c.
      on_register host (set_element host n key e) c Op.set_index n
        (operand_of host key ∷ operand_of host e ∷ []) (simp bytes) refl (omega arith)
        (operand_of-IsEncodable host key hk, (operand_of-IsEncodable host e he, tt)))

  Writes-refuse_target : (e : Expr F) (span : Span) → WritesClosed host (refuse_target host e span)
  unfolding refuse_target operand_error
  Writes-refuse_target e span = Writes-nothing host (refuse_target host e span) (λ c. refl)

  Writes-assign_in :
      (container : Option Text) (op : AssignOp) (base key e : Expr F) (span : Span)
      → IsWord host key
      → IsWord host e
      → WritesClosed host (assign_in host container op base key e span)
  unfolding assign_in operand_error
  Writes-assign_in none op base key e span hk he = Writes-refuse_target (index base key) span
  Writes-assign_in (some n) AssignOp.eq base key e span hk he = Writes-set_element n key e hk he
  Writes-assign_in (some n) op base key e span hk he =
      Writes-nothing host (assign_in host (some n) op base key e span) (λ c. refl)

  Writes-assign_to :
      (target : Expr F) (op : AssignOp) (e : Expr F) (span : Span)
      → IsSmall host target
      → IsWord host e
      → WritesClosed host (assign_to host target op e span)
  unfolding assign_to assign_element
  Writes-assign_to (self_access f) op e span ht he = Writes-assign_register op f e he
  Writes-assign_to (ident n) op e span ht he = Writes-assign_register op n e he
  Writes-assign_to (index base key) op e span ht he =
      Writes-assign_in (container_of base) op base key e span ht he
  Writes-assign_to target op e span ht he = Writes-refuse_target target span

  pub Writes-compile_assign :
      (a : AssignStmt F)
      → IsSmall host a.target
      → IsWord host a.value
      → WritesClosed host (compile_assign host a)
  unfolding compile_assign
  Writes-compile_assign a ht hv = Writes-assign_to a.target a.op a.value a.span ht hv
