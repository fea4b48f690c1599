-- ===== src/Compiler/Simple.antt =====
-- Assignments, `let` and `return` (src/compiler.rs: `compile_assign`, `compile_let`,
-- `compile_stmt`).
use cubelang.Base.{
  ℕ, ◌+◌, ◌%◌, List, ◌++◌, Bool, true, false, ◌&&◌, Option, none, some, length, min, ◌▷◌, ◌==◌,
}
use cubelang.Base.Int.{pos}
use cubelang.Base.Text.{Text, lit, show_nat}
use cubelang.Base.Equal.{list_eq}
use cubelang.Bytecode.Op
use cubelang.Syntax.Expr.{
  Span, TypeExpr, Expr, exprs, ident, self_access, index, call, method_call, array_lit,
}
use cubelang.Syntax.Stmt.{AssignOp, LetStmt, AssignStmt}
use cubelang.Vm.State.{Host}
use cubelang.Compiler.State.{compound_index, bad_target}
use cubelang.Compiler.Emit.{Pass, emit_byte, emit_named, emit_imm, emit_type, emit_debug}
use cubelang.Compiler.Operands.{
  operand_error, compile_expr_operand, compile_operands, emit_call, pop_into,
}

-- The derived `{:?}` of an assignment operator.
unfoldable pub show_assign_op : AssignOp → Text
show_assign_op AssignOp.eq = lit "Eq"
show_assign_op AssignOp.plus_eq = lit "PlusEq"
show_assign_op AssignOp.minus_eq = lit "MinusEq"
show_assign_op AssignOp.star_eq = lit "StarEq"
show_assign_op AssignOp.slash_eq = lit "SlashEq"

unfoldable pub assign_opcode : AssignOp → ℕ
assign_opcode AssignOp.eq = Op.assign
assign_opcode AssignOp.plus_eq = Op.add
assign_opcode AssignOp.minus_eq = Op.sub
assign_opcode AssignOp.star_eq = Op.mul
assign_opcode AssignOp.slash_eq = Op.div

unfoldable pub type_name : TypeExpr → Text
type_name (TypeExpr.named n) = n
type_name (TypeExpr.array t) = lit "array"
type_name (TypeExpr.map k v) = lit "map"
type_name TypeExpr.void = lit "void"
type_name _ = lit "any"

-- What names a register: an identifier or a field of `self`.
unfoldable pub container_of : {F : Type 0} → Expr F → Option Text
container_of (ident name) = some name
container_of (self_access f) = some f
container_of _ = none

module _ (host : Host) where
  open host.floats use {F}

  unfoldable pub assign_register : AssignOp → Text → Expr F → Pass host
  assign_register op name value c =
      c
      ▷ emit_debug host (assign_opcode op) (name ++ (lit " " ++ (show_assign_op op ++ lit " ...")))
      ▷ emit_byte host (assign_opcode op)
      ▷ emit_byte host 2
      ▷ emit_named host name
      ▷ compile_expr_operand host value

  unfoldable pub refuse_target : Expr F → Span → Pass host
  refuse_target target span =
      operand_error host (record { message = bad_target target; span = span })

  unfoldable pub set_element : Text → Expr F → Expr F → Pass host
  set_element container key value c =
      c
      ▷ emit_debug host Op.set_index (container ++ lit "[...] = ...")
      ▷ emit_byte host Op.set_index
      ▷ emit_byte host 3
      ▷ emit_named host container
      ▷ compile_expr_operand host key
      ▷ compile_expr_operand host value

  -- `container[key] = value`; only a named container, and only the plain operator.
  unfoldable pub assign_in : Option Text → AssignOp → Expr F → Expr F → Expr F → Span → Pass host
  assign_in none op base key value span = refuse_target (index base key) span
  assign_in (some container) AssignOp.eq base key value span = set_element container key value
  assign_in (some container) op base key value span =
      operand_error host (record { message = compound_index op container; span = span })

  unfoldable pub assign_element : AssignOp → Expr F → Expr F → Expr F → Span → Pass host
  assign_element op base key value span = assign_in (container_of base) op base key value span

  unfoldable pub assign_to : Expr F → AssignOp → Expr F → Span → Pass host
  assign_to (self_access f) op value span c = assign_register op f value c
  assign_to (ident name) op value span c = assign_register op name value c
  assign_to (index base key) op value span c = assign_element op base key value span c
  assign_to target op value span c = refuse_target target span c

  unfoldable pub compile_assign : AssignStmt F → Pass host
  compile_assign a = assign_to a.target a.op a.value a.span

  abbrev pub type_text : Option TypeExpr → Text
  type_text (some ty) = type_name ty
  type_text none = lit "auto"

  unfoldable pub declare : Text → Option TypeExpr → Pass host
  declare name ty c =
      c
      ▷ emit_debug host Op.create (lit "let " ++ name)
      ▷ emit_byte host Op.create
      ▷ emit_byte host 2
      ▷ emit_named host name
      ▷ emit_type host (type_text ty)

  unfoldable pub let_call : Text → Expr F → List (Expr F) → Pass host
  let_call name callee args c =
      c
      ▷ emit_call host callee args
      ▷ emit_debug host Op.pop (lit "pop " ++ name)
      ▷ pop_into host name

  abbrev pub array_text : Text → ℕ → Text
  array_text name n = lit "make_array " ++ (name ++ (lit " (n=" ++ (show_nat n ++ lit ")")))

  -- The operand count is `(n as u8).saturating_add(2)`, the element count an immediate.
  unfoldable pub let_array : Text → List (Expr F) → Pass host
  let_array name elems c =
      c
      ▷ emit_debug host Op.make_array (array_text name (length elems))
      ▷ emit_byte host Op.make_array
      ▷ emit_byte host (min (length elems % 256 + 2) 255)
      ▷ emit_named host name
      ▷ emit_imm host (pos (length elems))
      ▷ compile_operands host elems

  unfoldable pub let_len : Text → Text → Pass host
  let_len name arr c =
      c
      ▷ emit_debug host Op.len (lit "len " ++ (name ++ (lit " = " ++ (arr ++ lit ".len()"))))
      ▷ emit_byte host Op.len
      ▷ emit_byte host 2
      ▷ emit_named host name
      ▷ emit_named host arr

  unfoldable pub let_index : Text → Text → Expr F → Pass host
  let_index name arr key c =
      c
      ▷ emit_debug host Op.index (lit "index " ++ (name ++ (lit " = " ++ (arr ++ lit "[...]"))))
      ▷ emit_byte host Op.index
      ▷ emit_byte host 3
      ▷ emit_named host name
      ▷ emit_named host arr
      ▷ compile_expr_operand host key

  unfoldable pub let_value : Text → Expr F → Pass host
  let_value name value c =
      c
      ▷ emit_byte host Op.assign
      ▷ emit_byte host 2
      ▷ emit_named host name
      ▷ compile_expr_operand host value

  -- `arr.len()` has an instruction; any other method call is refused as an operand.
  abbrev pub is_len : Text → List (Expr F) → Bool
  is_len method args = list_eq method (lit "len") && (length args == 0)

  unfoldable pub let_method : Bool → Text → Text → Expr F → Pass host
  let_method true name arr value = let_len name arr
  let_method false name arr value = let_value name value

  unfoldable pub let_element : Option Text → Text → Expr F → Expr F → Pass host
  let_element (some arr) name base key = let_index name arr key
  let_element none name base key = let_value name (index base key)

  unfoldable pub let_rhs : Text → Expr F → Pass host
  let_rhs name (call callee args) = let_call name callee (exprs args)
  let_rhs name (array_lit es) = let_array name (exprs es)
  let_rhs name (method_call (ident arr) method args) =
      let_method (is_len method (exprs args)) name arr (method_call (ident arr) method args)
  let_rhs name (index base key) = let_element (container_of base) name base key
  let_rhs name value = let_value name value

  unfoldable pub compile_let : LetStmt F → Pass host
  compile_let l c = c ▷ declare l.name l.ty ▷ let_rhs l.name l.value

  abbrev pub return_register : Text
  return_register = lit "__return_call"

  abbrev pub return_value : Pass host → Pass host
  return_value operand c =
      c
      ▷ emit_debug host Op.return (lit "return value")
      ▷ emit_byte host Op.return
      ▷ emit_byte host 1
      ▷ operand

  -- A call's result comes by the stack, and goes through a register of its own.
  unfoldable pub return_call : Expr F → List (Expr F) → Pass host
  return_call callee args c =
      c
      ▷ emit_call host callee args
      ▷ emit_debug host Op.pop (lit "pop __return_call")
      ▷ pop_into host return_register
      ▷ return_value (emit_named host return_register)

  unfoldable pub compile_return : Option (Expr F) → Pass host
  compile_return none c =
      c ▷ emit_debug host Op.return (lit "return") ▷ emit_byte host Op.return ▷ emit_byte host 0
  compile_return (some (call callee args)) c = return_call callee (exprs args) c
  compile_return (some e) c = return_value (compile_expr_operand host e) c
