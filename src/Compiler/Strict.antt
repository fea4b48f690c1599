-- ===== src/Compiler/Strict.antt =====
-- What `--strict` refuses in a statement (src/compiler.rs: `strict_check_stmt`, `stmt_span`).
use cubelang.Base.{Bool, true, false, Option, none, some, if◌then◌else◌}
use cubelang.Bytecode.Ext.{is_trace_only_ext_op}
use cubelang.Syntax.Expr.{Span, Expr, call, method_call}
use cubelang.Syntax.Stmt.{
  Stmt, OpcodeStmt, let_, assign, if_, for_, while_, match_, throw, emit, opcode, expr, try_catch,
  assert, atomic, asm,
}
use cubelang.Vm.State.{Host}
use cubelang.Compiler.State.{
  trace_only, unify, assertion, throw as throw_construct, no_effect, strict_violation,
}
use cubelang.Compiler.Emit.{Pass}

unfoldable pub is_call : {F : Type 0} → Expr F → Bool
is_call (call f es) = true
is_call (method_call e m es) = true
is_call _ = false

unfoldable pub stmt_span : {F : Type 0} → Stmt F → Option Span
stmt_span (let_ l) = some l.span
stmt_span (assign a) = some a.span
stmt_span (if_ c t e span) = some span
stmt_span (for_ b i ss span) = some span
stmt_span (while_ c ss span) = some span
stmt_span (match_ e arms span) = some span
stmt_span (emit e) = some e.span
stmt_span (try_catch t b c f span) = some span
stmt_span (assert a) = some a.span
stmt_span (atomic ss span) = some span
stmt_span (asm b) = some b.span
stmt_span _ = none

module _ (host : Host) where
  open host.floats use {F}

  unfoldable pub strict_check_opcode : OpcodeStmt F → Pass host
  strict_check_opcode (OpcodeStmt.extended op args) c =
      if is_trace_only_ext_op op then strict_violation (trace_only op) none c else c
  strict_check_opcode (OpcodeStmt.unify a b) c = strict_violation unify none c
  strict_check_opcode _ c = c

  unfoldable pub strict_check_stmt : Stmt F → Pass host
  strict_check_stmt (opcode o) c = strict_check_opcode o c
  strict_check_stmt (assert a) c =
      if is_call a.condition then c else strict_violation assertion (some a.span.line) c
  strict_check_stmt (expr e) c = if is_call e then c else strict_violation (no_effect e) none c
  strict_check_stmt (throw e) c = strict_violation throw_construct none c
  strict_check_stmt _ c = c
