-- ===== src/Compiler/Statements.antt =====
-- Every statement is lowered to closed code (src/compiler.rs: `compile_stmt`).
use cubelang.Base.{[], ◌∷◌, Option, none, some, refl, ◌≡◌, arith, ◌∙◌}
use cubelang.Base.Text.{Text, lit}
use cubelang.Bytecode.Op
use cubelang.Bytecode.Operand.{global}
use cubelang.Bytecode.RoundTrip.{encode_operands}
use cubelang.Bytecode.Code.{encode_instr}
use cubelang.Syntax.Expr.{Span, Expr}
use cubelang.Syntax.Stmt.{
  Stmt, Stmts, OptStmts, Arms, let_, assign, if_, for_, while_, match_, return, throw, emit, opcode,
  expr, try_catch, assert, atomic, rollback, commit, asm, no_stmts, more_stmts, absent, present,
  no_arms, more_arms,
}
use cubelang.Vm.State.{Host}
use cubelang.Compiler.State.{Compiler, strict_violation}
use cubelang.Compiler.Emit.{emit_debug}
use cubelang.Compiler.Opcodes.{compile_opcode}
use cubelang.Compiler.Strict.{stmt_span, strict_check_opcode, strict_check_stmt}
use cubelang.Compiler.Lower.{
  note_span, strict_check, enter_stmt, skip_marker, compile_emit, compile_assert, lower_stmt,
  compile_stmts, compile_opt, compile_arms,
}
use cubelang.Compiler.Bytes.{bytes, IsWord}
use cubelang.Compiler.Output.{WritesClosed, WritesClosed-then, Writes-nothing, WritesOne-closed}
use cubelang.Compiler.Limits.{IsSmallStmt, AreSmall, AreSmallOpt, AreSmallArms, IsSmall}
use cubelang.Compiler.Straight.{on_register, Writes-compile_opcode}
use cubelang.Compiler.Asm.{Writes-compile_asm_block}
use cubelang.Compiler.Simples.{Writes-compile_expr_discard, Writes-skip}
use cubelang.Compiler.Assigns.{Writes-compile_assign}
use cubelang.Compiler.Matches.{Writes-compile_match, Writes-arm_then, Writes-no_arms}
use cubelang.Compiler.Bindings.{Writes-compile_let, Writes-compile_return}
use cubelang.Compiler.Scope.{Writes}
use cubelang.Compiler.Branches.{
  WritesClosedOpt, Writes-compile_if, Writes-compile_while, Writes-compile_atomic,
  Writes-compile_try,
}
use cubelang.Compiler.Loops.{Writes-compile_for}

module _ (host : Host) where
  open host use {hash, floats}
  open host.floats use {F}

  Writes-skip_marker : (what : Text) → WritesClosed host (skip_marker host what)
  unfolding skip_marker emit_debug
  Writes-skip_marker what c = Writes-skip host (emit_debug host Op.skip what c)

  Writes-compile_emit : (name : Text) → WritesClosed host (compile_emit host name)
  unfolding compile_emit encode_instr encode_operands
  Writes-compile_emit name = WritesOne-closed host (compile_emit host name) (λ c.
      on_register host (compile_emit host name) c Op.store (lit "__event__")
        (global (hash name) ∷ []) (simp bytes) refl (omega arith) (tt, tt))

  Writes-compile_assert : (e : Expr F) → IsSmall host e → WritesClosed host (compile_assert host e)
  unfolding compile_assert emit_debug
  Writes-compile_assert e h c =
      Writes-compile_expr_discard host e h (emit_debug host Op.compare (lit "assert") c)

  bytes_strict_check : (s : Stmt F) (c : Compiler F) → (strict_check host s c).bytecode ≡ c.bytecode
  unfolding strict_check strict_check_stmt strict_check_opcode strict_violation
  bytes_strict_check s c = ground arith

  bytes_note_span : (o : Option Span) (c : Compiler F) → (note_span host o c).bytecode ≡ c.bytecode
  unfolding note_span
  bytes_note_span none c = refl
  bytes_note_span (some span) c = refl

  -- Entering a statement notes its span and its strict violations, and writes nothing.
  bytes_enter_stmt : (s : Stmt F) (c : Compiler F) → (enter_stmt host s c).bytecode ≡ c.bytecode
  unfolding enter_stmt
  bytes_enter_stmt s c =
      bytes_strict_check s (note_span host (stmt_span s) c) ∙ bytes_note_span (stmt_span s) c

  mutual
    unfolding lower_stmt compile_stmts compile_opt compile_arms

    Writes-lower_stmt : (s : Stmt F) → IsSmallStmt host s → WritesClosed host (lower_stmt host s)
    Writes-lower_stmt (opcode o) h =
        WritesOne-closed host (compile_opcode host o) (Writes-compile_opcode host o h)
    Writes-lower_stmt (let_ l) h = Writes-compile_let host l h
    Writes-lower_stmt (if_ e ts es span) h =
        Writes-compile_if host e (compile_stmts host ts) (compile_opt host es) h.0
          (Writes-compile_stmts ts h.1) (Writes-compile_opt es h.2)
    Writes-lower_stmt (for_ b e ss span) h =
        Writes-compile_for host b e (compile_stmts host ss) span h.0 (Writes-compile_stmts ss h.1)
    Writes-lower_stmt (while_ e ss span) h =
        Writes-compile_while host e (compile_stmts host ss) h.0 (Writes-compile_stmts ss h.1)
    Writes-lower_stmt (match_ e arms span) h =
        Writes-compile_match host (λ end_label. compile_arms host end_label e arms)
          (λ end_label. Writes-compile_arms end_label e arms h.0 h.1)
    Writes-lower_stmt (return v) h = Writes-compile_return host v h
    Writes-lower_stmt (atomic ss span) h =
        Writes-compile_atomic host (compile_stmts host ss) (Writes-compile_stmts ss h)
    Writes-lower_stmt commit h = Writes-skip_marker (lit "commit")
    Writes-lower_stmt rollback h = Writes-skip_marker (lit "rollback")
    Writes-lower_stmt (assert a) h = Writes-compile_assert a.condition h
    Writes-lower_stmt (emit e) h = Writes-compile_emit e.event_name
    Writes-lower_stmt (try_catch ts b cs fs span) h =
        Writes-compile_try host (compile_stmts host ts) (compile_stmts host cs)
          (compile_opt host fs) (Writes-compile_stmts ts h.0) (Writes-compile_stmts cs h.1)
          (Writes-compile_opt fs h.2)
    Writes-lower_stmt (assign a) h = Writes-compile_assign host a h.0 h.1
    Writes-lower_stmt (expr e) h = Writes-compile_expr_discard host e h
    Writes-lower_stmt (asm b) h = Writes-compile_asm_block host b h
    Writes-lower_stmt (throw e) h = Writes-skip host

    pub Writes-compile_stmts :
        (ss : Stmts F) → AreSmall host ss → WritesClosed host (compile_stmts host ss)
    Writes-compile_stmts no_stmts h = Writes-nothing host (λ c. c) (λ c. refl)
    Writes-compile_stmts (more_stmts s ss) h =
        WritesClosed-then host (λ c. lower_stmt host s (enter_stmt host s c))
          (compile_stmts host ss)
          (WritesClosed-then host (enter_stmt host s) (lower_stmt host s)
            (Writes-nothing host (enter_stmt host s) (bytes_enter_stmt s))
            (Writes-lower_stmt s h.0))
          (Writes-compile_stmts ss h.1)

    Writes-compile_opt :
        (ss : OptStmts F) → AreSmallOpt host ss → WritesClosedOpt host (compile_opt host ss)
    Writes-compile_opt absent h = tt
    Writes-compile_opt (present ss) h = Writes-compile_stmts ss h

    Writes-compile_arms :
        (end_label : Text) (e : Expr F) (arms : Arms F)
        → IsWord host e
        → AreSmallArms host arms
        → Writes host (hash end_label ∷ []) [] (compile_arms host end_label e arms)
    Writes-compile_arms end_label e no_arms he h = Writes-no_arms host end_label
    Writes-compile_arms end_label e (more_arms p ss arms) he h =
        Writes-arm_then host end_label e p (compile_stmts host ss)
          (compile_arms host end_label e arms) he h.0 (Writes-compile_stmts ss h.1)
          (Writes-compile_arms end_label e arms he h.2)
