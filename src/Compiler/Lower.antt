-- ===== src/Compiler/Lower.antt =====
-- The lowering of statements (src/compiler.rs: `compile_stmt`).
use cubelang.Base.{◌++◌, Option, none, some, if◌then◌else◌, ◌▷◌}
use cubelang.Base.Text.{Text, lit}
use cubelang.Bytecode.Op
use cubelang.Syntax.Expr.{Span, Expr}
use cubelang.Syntax.Stmt.{
  Stmt, Stmts, OptStmts, Arms, let_, assign, if_, for_, while_, match_, return, throw, emit, opcode,
  expr, try_catch, assert, atomic, rollback, commit, asm, no_stmts, more_stmts, absent, present,
  no_arms, more_arms,
}
use cubelang.Vm.State.{Host}
use cubelang.Compiler.Emit.{Pass, emit_byte, emit_named, emit_global, emit_debug}
use cubelang.Compiler.Operands.{compile_expr_discard}
use cubelang.Compiler.Opcodes.{compile_opcode, compile_asm_block}
use cubelang.Compiler.Simple.{compile_assign, compile_let, compile_return}
use cubelang.Compiler.Control.{
  compile_if, compile_for, compile_while, compile_match, arm_then, compile_atomic, compile_try,
}
use cubelang.Compiler.Strict.{stmt_span, strict_check_stmt}

module _ (host : Host) where
  open host.floats use {F}

  unfoldable pub note_span : Option Span → Pass host
  note_span (some span) c = record c { current_span = some span }
  note_span none c = c

  unfoldable pub strict_check : Stmt F → Pass host
  strict_check s c = if c.strict then strict_check_stmt host s c else c

  -- The span of the statement, where it has one, and the strict check.
  unfoldable pub enter_stmt : Stmt F → Pass host
  enter_stmt s c = c ▷ note_span (stmt_span s) ▷ strict_check s

  unfoldable pub skip_marker : Text → Pass host
  skip_marker what c = c ▷ emit_debug host Op.skip what ▷ emit_byte host Op.skip

  unfoldable pub compile_emit : Text → Pass host
  compile_emit event_name c =
      c
      ▷ emit_debug host Op.store (lit "emit " ++ event_name)
      ▷ emit_byte host Op.store
      ▷ emit_byte host 2
      ▷ emit_named host (lit "__event__")
      ▷ emit_global host event_name

  unfoldable pub compile_assert : Expr F → Pass host
  compile_assert condition c =
      c ▷ emit_debug host Op.compare (lit "assert") ▷ compile_expr_discard host condition

  unfoldable mutual
    pub lower_stmt : Stmt F → Pass host
    lower_stmt (opcode o) c = compile_opcode host o c
    lower_stmt (let_ l) c = compile_let host l c
    lower_stmt (if_ condition ts es span) c =
        compile_if host condition (compile_stmts ts) (compile_opt es) c
    lower_stmt (for_ binding iter ss span) c =
        compile_for host binding iter (compile_stmts ss) span c
    lower_stmt (while_ condition ss span) c = compile_while host condition (compile_stmts ss) c
    lower_stmt (match_ subject arms span) c =
        compile_match host (λ end_label. compile_arms end_label subject arms) c
    lower_stmt (return value) c = compile_return host value c
    lower_stmt (atomic ss span) c = compile_atomic host (compile_stmts ss) c
    lower_stmt commit c = skip_marker (lit "commit") c
    lower_stmt rollback c = skip_marker (lit "rollback") c
    lower_stmt (assert a) c = compile_assert a.condition c
    lower_stmt (emit e) c = compile_emit e.event_name c
    lower_stmt (try_catch ts binding cs fs span) c =
        compile_try host (compile_stmts ts) (compile_stmts cs) (compile_opt fs) c
    lower_stmt (assign a) c = compile_assign host a c
    lower_stmt (expr e) c = compile_expr_discard host e c
    lower_stmt (asm block) c = compile_asm_block host block c
    lower_stmt (throw e) c = emit_byte host Op.skip c

    pub compile_stmts : Stmts F → Pass host
    compile_stmts no_stmts c = c
    compile_stmts (more_stmts s ss) c = compile_stmts ss (lower_stmt s (enter_stmt s c))

    pub compile_opt : OptStmts F → Option (Pass host)
    compile_opt absent = none
    compile_opt (present ss) = some (compile_stmts ss)

    pub compile_arms : Text → Expr F → Arms F → Pass host
    compile_arms end_label subject no_arms c = c
    compile_arms end_label subject (more_arms pattern body arms) c =
        arm_then host end_label subject pattern (compile_stmts body)
          (compile_arms end_label subject arms) c

  unfoldable pub compile_stmt : Stmt F → Pass host
  compile_stmt s c = lower_stmt s (enter_stmt s c)
