-- ===== src/Compiler/Operands.antt =====
-- Expressions as operands, calls and conditions (src/compiler.rs: `compile_expr_operand`,
-- `emit_call`, `compile_expr_discard`, `compile_condition`).
use cubelang.Base.{ℕ, ◌+◌, ◌%◌, List, [], ◌∷◌, ◌++◌, Option, none, some, length, if◌then◌else◌, ◌▷◌}
use cubelang.Base.Int.{pos}
use cubelang.Base.Text.{Text, lit, show_nat}
use cubelang.Bytecode.Op
use cubelang.Syntax.Expr.{
  Span, BinOp, Expr, exprs, int_lit, float_lit, string_lit, bool_lit, null, ident, self_access,
  field, index, call, method_call, bin_op, unary_op, struct_lit, array_lit, map_lit, lambda, await,
  deploy, proxy,
}
use cubelang.Vm.State.{Host}
use cubelang.Compiler.State.{Compiler, ParseError, not_encodable}
use cubelang.Compiler.Emit.{
  Pass, emit_byte, emit_named, emit_imm, emit_float_imm, emit_global, emit_none, emit_debug,
}

abbrev pub no_span : Span
no_span = record { line = 0; col = 0; offset = 0 }

unfoldable pub expr_form_name : {F : Type 0} → Expr F → Text
expr_form_name (index a b) = lit "Index"
expr_form_name (call f es) = lit "Call"
expr_form_name (method_call e m es) = lit "MethodCall"
expr_form_name (bin_op a op b) = lit "BinOp"
expr_form_name (unary_op op e) = lit "UnaryOp"
expr_form_name (struct_lit n fs) = lit "StructLit"
expr_form_name (array_lit es) = lit "ArrayLit"
expr_form_name (map_lit ps) = lit "MapLit"
expr_form_name (lambda ps e) = lit "Lambda"
expr_form_name (await e) = lit "Await"
expr_form_name (deploy n es) = lit "Deploy"
expr_form_name (proxy n fs) = lit "Proxy"
expr_form_name _ = lit "expression"

-- The derived `{:?}` of an operator.
unfoldable pub show_bin_op : BinOp → Text
show_bin_op BinOp.add = lit "Add"
show_bin_op BinOp.sub = lit "Sub"
show_bin_op BinOp.mul = lit "Mul"
show_bin_op BinOp.div = lit "Div"
show_bin_op BinOp.modulo = lit "Mod"
show_bin_op BinOp.eq = lit "Eq"
show_bin_op BinOp.not_eq = lit "NotEq"
show_bin_op BinOp.lt = lit "Lt"
show_bin_op BinOp.gt = lit "Gt"
show_bin_op BinOp.lt_eq = lit "LtEq"
show_bin_op BinOp.gt_eq = lit "GtEq"
show_bin_op BinOp.and = lit "And"
show_bin_op BinOp.or = lit "Or"

-- The kind immediate of a comparison.
unfoldable pub comparison_kind : BinOp → Option ℕ
comparison_kind BinOp.eq = some 0
comparison_kind BinOp.not_eq = some 1
comparison_kind BinOp.lt = some 2
comparison_kind BinOp.lt_eq = some 3
comparison_kind BinOp.gt = some 4
comparison_kind BinOp.gt_eq = some 5
comparison_kind _ = none

module _ (host : Host) where
  open host.floats use {F}

  unfoldable pub operand_error : ParseError F → Pass host
  operand_error e c = record c { operand_errors = c.operand_errors ++ e ∷ [] }

  abbrev pub span_of : Compiler F → Span
  span_of c = elim c.current_span [ some s ↦ s | none ↦ no_span ]

  -- An expression of no operand form is an error, and a placeholder keeps the operand count.
  unfoldable pub not_an_operand : Expr F → Pass host
  not_an_operand e c =
      c
      ▷ operand_error (record {
        message = not_encodable (expr_form_name e) c.current_program c.current_function;
        span = span_of c;
      })
      ▷ emit_none host

  unfoldable pub field_name : Expr F → Text → Text
  field_name (ident base) f = base ++ (lit "." ++ f)
  field_name _ f = f

  unfoldable pub compile_expr_operand : Expr F → Pass host
  compile_expr_operand (int_lit n) = emit_imm host n
  compile_expr_operand (float_lit x) = emit_float_imm host x
  compile_expr_operand (string_lit s) = emit_global host s
  compile_expr_operand (bool_lit b) = emit_imm host (if b then pos 1 else pos 0)
  compile_expr_operand null = emit_imm host (pos 0)
  compile_expr_operand (ident name) = emit_named host name
  compile_expr_operand (self_access f) = emit_named host f
  compile_expr_operand (field base f) = emit_named host (field_name base f)
  compile_expr_operand e = not_an_operand e

  unfoldable pub compile_operands : List (Expr F) → Pass host
  compile_operands [] c = c
  compile_operands (e ∷ es) c = compile_operands es (compile_expr_operand e c)

  abbrev pub call_text : Text → ℕ → Text
  call_text name n = lit "call " ++ (name ++ (lit "(" ++ (show_nat n ++ lit ")")))

  -- A callee that is not a name leaves an empty operand in its place.
  unfoldable pub emit_call : Expr F → List (Expr F) → Pass host
  emit_call (ident name) args c =
      c
      ▷ emit_debug host Op.call (call_text name (length args))
      ▷ emit_byte host Op.call
      ▷ emit_byte host ((length args + 1) % 256)
      ▷ emit_global host name
      ▷ compile_operands args
  emit_call callee args c =
      c
      ▷ emit_debug host Op.call (lit "call <expr>")
      ▷ emit_byte host Op.call
      ▷ emit_byte host ((length args + 1) % 256)
      ▷ emit_none host
      ▷ compile_operands args

  abbrev pub pop_into : Text → Pass host
  pop_into name c = c ▷ emit_byte host Op.pop ▷ emit_byte host 1 ▷ emit_named host name

  -- A method is called like a function, with no receiver.
  unfoldable pub call_method : Text → List (Expr F) → Pass host
  call_method method args c =
      c
      ▷ emit_debug host Op.call (lit "." ++ (method ++ lit "()"))
      ▷ emit_byte host Op.call
      ▷ emit_byte host ((length args + 1) % 256)
      ▷ emit_global host method
      ▷ compile_operands args

  unfoldable pub compile_expr_discard : Expr F → Pass host
  compile_expr_discard (call callee args) c =
      c ▷ emit_call callee (exprs args) ▷ pop_into (lit "__call_discard")
  compile_expr_discard (method_call receiver method args) c =
      c ▷ call_method method (exprs args) ▷ pop_into (lit "__call_discard")
  compile_expr_discard e c = emit_byte host Op.skip c

  -- COMPARE with an operand for each side and the kind, or with the one expression and the kind 6.
  unfoldable pub compile_comparison : Expr F → BinOp → Expr F → ℕ → Pass host
  compile_comparison lhs bop rhs kind c =
      c
      ▷ emit_debug host Op.compare (lit "cond " ++ show_bin_op bop)
      ▷ emit_byte host Op.compare
      ▷ emit_byte host 3
      ▷ compile_expr_operand lhs
      ▷ compile_expr_operand rhs
      ▷ emit_imm host (pos kind)

  unfoldable pub compile_truthy : Expr F → Pass host
  compile_truthy cond c =
      c
      ▷ emit_debug host Op.compare (lit "cond truthy")
      ▷ emit_byte host Op.compare
      ▷ emit_byte host 2
      ▷ compile_expr_operand cond
      ▷ emit_imm host (pos 6)

  -- The test of a two-sided expression, by its comparison kind where it has one.
  unfoldable pub condition_by : Option ℕ → Expr F → BinOp → Expr F → Pass host
  condition_by (some kind) lhs bop rhs = compile_comparison lhs bop rhs kind
  condition_by none lhs bop rhs = compile_truthy (bin_op lhs bop rhs)

  unfoldable pub compile_condition : Expr F → Pass host
  compile_condition (bin_op lhs bop rhs) = condition_by (comparison_kind bop) lhs bop rhs
  compile_condition cond = compile_truthy cond
