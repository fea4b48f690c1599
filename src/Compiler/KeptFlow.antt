-- ===== src/Compiler/KeptFlow.antt =====
-- Control flow and whole statements change nothing that the checks on declarations read and write
-- (src/compiler.rs: `compile_stmt`, `compile_if`, `compile_for`, `compile_while`, `compile_match`).
use cubelang.Base.{ℕ, Bool, true, false, Option, none, some, refl, ◌∙◌, arith}
use cubelang.Base.Text.{Text}
use cubelang.Syntax.Expr.{Span, Expr, ident}
use cubelang.Syntax.Stmt.{
  Stmt, Stmts, OptStmts, Arms, let_, assign, if_, for_, while_, match_, return, throw, emit, opcode,
  expr, try_catch, assert, atomic, rollback, commit, asm, no_stmts, more_stmts, absent, present,
  no_arms, more_arms,
}
use cubelang.Vm.State.{Host}
use cubelang.Compiler.State.{strict_violation}
use cubelang.Compiler.Emit.{Pass, count, fresh_label}
use cubelang.Compiler.Control.{
  is_wildcard_pattern, if_else, compile_if, while_loop, compile_while, create_auto, with_imm,
  for_start, for_test, for_element, for_loop, materialise, compile_for, match_arm, arm_by, arm_then,
  compile_match, compile_atomic, or_nothing, try_paths, compile_try,
}
use cubelang.Compiler.Strict.{strict_check_opcode, strict_check_stmt}
use cubelang.Compiler.Lower.{
  note_span, strict_check, enter_stmt, skip_marker, compile_emit, compile_assert, lower_stmt,
  compile_stmts, compile_opt, compile_arms,
}
use cubelang.Compiler.Context.{
  context, Keeps, emitters, Keeps-byte, Keeps-operand, Keeps-condition, Keeps-discard,
}
use cubelang.Compiler.Kept.{Keeps-opcode, Keeps-asm, Keeps-assign, Keeps-let, Keeps-return}

module _ (host : Host) where
  open host.floats use {F}

  abbrev KeepsOpt : Option (Pass host) → Type 0
  KeepsOpt none = Unit
  KeepsOpt (some p) = Keeps host p

  Keeps-count : Keeps host (count host)
  unfolding context
  Keeps-count c = refl

  Keeps-if_else :
      (l m : Text) (e : Expr F) (t : Pass host) (f : Option (Pass host))
      → Keeps host t
      → KeepsOpt f
      → Keeps host (if_else host l m e t f)
  unfolding if_else
  Keeps-if_else l m e t (some f) ht hf c = simp (emitters, Keeps-condition, ht, hf)
  Keeps-if_else l m e t none ht hf c = simp (emitters, Keeps-condition, ht)

  Keeps-if :
      (e : Expr F) (t : Pass host) (f : Option (Pass host))
      → Keeps host t
      → KeepsOpt f
      → Keeps host (compile_if host e t f)
  unfolding compile_if fresh_label context
  Keeps-if e t f ht hf c = Keeps-if_else _ _ e t f ht hf (count host (count host c))

  Keeps-while_loop :
      (l m : Text) (e : Expr F) (p : Pass host)
      → Keeps host p
      → Keeps host (while_loop host l m e p)
  unfolding while_loop
  Keeps-while_loop l m e p h c = simp (emitters, Keeps-condition, h)

  Keeps-while : (e : Expr F) (p : Pass host) → Keeps host p → Keeps host (compile_while host e p)
  unfolding compile_while fresh_label context
  Keeps-while e p h c = Keeps-while_loop _ _ e p h (count host (count host c))

  Keeps-create : (n : Text) → Keeps host (create_auto host n)
  unfolding create_auto
  Keeps-create n c = simp emitters

  Keeps-with : (code : ℕ) (name : Text) (n : ℕ) → Keeps host (with_imm host code name n)
  unfolding with_imm
  Keeps-with code name n c = simp emitters

  Keeps-for_loop :
      (top end_label i n arr b : Text) (p : Pass host)
      → Keeps host p
      → Keeps host (for_loop host top end_label i n arr b p)
  unfolding for_loop for_start for_test for_element
  Keeps-for_loop top end_label i n arr b p h c = simp (emitters, Keeps-create, Keeps-with, h)

  Keeps-materialise :
      (v : Text) (e : Expr F) (span : Span) → Keeps host (λ c. (materialise host v e span c).1)
  unfolding materialise
  Keeps-materialise v (ident n) span c = refl
  Keeps-materialise v e span c = Keeps-let host _ c

  Keeps-for :
      (b : Text) (e : Expr F) (p : Pass host) (span : Span)
      → Keeps host p
      → Keeps host (compile_for host b e p span)
  unfolding compile_for fresh_label
  Keeps-for b e p span h c = simp (Keeps-count, Keeps-for_loop _ _ _ _ _ _ p h, Keeps-materialise)

  Keeps-match_arm :
      (l m : Text) (s e : Expr F) (p : Pass host)
      → Keeps host p
      → Keeps host (match_arm host l m s e p)
  unfolding match_arm
  Keeps-match_arm l m s e p h c = simp (emitters, Keeps-operand, h)

  Keeps-arm_by :
      (any : Bool) (l : Text) (s e : Expr F) (p rest : Pass host)
      → Keeps host p
      → Keeps host rest
      → Keeps host (arm_by host any l s e p rest)
  unfolding arm_by fresh_label
  Keeps-arm_by true l s e p rest h k c = h c
  Keeps-arm_by false l s e p rest h k c = simp (k, Keeps-match_arm _ _ s e p h, Keeps-count)

  Keeps-arm_then :
      (l : Text) (s e : Expr F) (p rest : Pass host)
      → Keeps host p
      → Keeps host rest
      → Keeps host (arm_then host l s e p rest)
  unfolding arm_then
  Keeps-arm_then l s e = Keeps-arm_by (is_wildcard_pattern e) l s e

  Keeps-match :
      (arms : Text → Pass host)
      → ((l : Text) → Keeps host (arms l))
      → Keeps host (compile_match host arms)
  unfolding compile_match fresh_label
  Keeps-match arms h c = simp (emitters, h, Keeps-count)

  Keeps-atomic : (p : Pass host) → Keeps host p → Keeps host (compile_atomic host p)
  unfolding compile_atomic fresh_label
  Keeps-atomic p h c = simp (emitters, h, Keeps-count)

  Keeps-or_nothing : (p : Option (Pass host)) → KeepsOpt p → Keeps host (or_nothing host p)
  Keeps-or_nothing none h c = refl
  Keeps-or_nothing (some p) h c = h c

  Keeps-try :
      (p q : Pass host) (r : Option (Pass host))
      → Keeps host p
      → Keeps host q
      → KeepsOpt r
      → Keeps host (compile_try host p q r)
  unfolding compile_try try_paths fresh_label
  Keeps-try p q r hp hq hr c = simp (emitters, hp, hq, Keeps-or_nothing r hr, Keeps-count)

  Keeps-check : (s : Stmt F) → Keeps host (strict_check host s)
  unfolding context strict_check strict_check_stmt strict_check_opcode strict_violation
  Keeps-check s c = ground arith

  Keeps-span : (o : Option Span) → Keeps host (note_span host o)
  unfolding context note_span
  Keeps-span none c = refl
  Keeps-span (some span) c = refl

  Keeps-enter : (s : Stmt F) → Keeps host (enter_stmt host s)
  unfolding enter_stmt
  Keeps-enter s c = simp (Keeps-check, Keeps-span)

  Keeps-marker : (d : Text) → Keeps host (skip_marker host d)
  unfolding skip_marker
  Keeps-marker d c = simp emitters

  Keeps-emit : (d : Text) → Keeps host (compile_emit host d)
  unfolding compile_emit
  Keeps-emit d c = simp emitters

  Keeps-assert : (e : Expr F) → Keeps host (compile_assert host e)
  unfolding compile_assert
  Keeps-assert e c = simp (emitters, Keeps-discard)

  mutual
    unfolding lower_stmt compile_stmts compile_opt compile_arms

    Keeps-lower : (s : Stmt F) → Keeps host (lower_stmt host s)
    Keeps-lower (opcode o) = Keeps-opcode host o
    Keeps-lower (let_ l) = Keeps-let host l
    Keeps-lower (if_ e ts es span) =
        Keeps-if e (compile_stmts host ts) (compile_opt host es) (Keeps-stmts ts) (Keeps-opt es)
    Keeps-lower (for_ b e ss span) = Keeps-for b e (compile_stmts host ss) span (Keeps-stmts ss)
    Keeps-lower (while_ e ss span) = Keeps-while e (compile_stmts host ss) (Keeps-stmts ss)
    Keeps-lower (match_ e arms span) =
        Keeps-match (λ l. compile_arms host l e arms) (λ l. Keeps-arms l e arms)
    Keeps-lower (return v) = Keeps-return host v
    Keeps-lower (atomic ss span) = Keeps-atomic (compile_stmts host ss) (Keeps-stmts ss)
    Keeps-lower commit = Keeps-marker _
    Keeps-lower rollback = Keeps-marker _
    Keeps-lower (assert a) = Keeps-assert a.condition
    Keeps-lower (emit e) = Keeps-emit e.event_name
    Keeps-lower (try_catch ts b cs fs span) =
        Keeps-try (compile_stmts host ts) (compile_stmts host cs) (compile_opt host fs)
          (Keeps-stmts ts) (Keeps-stmts cs) (Keeps-opt fs)
    Keeps-lower (assign a) = Keeps-assign host a
    Keeps-lower (expr e) = Keeps-discard host e
    Keeps-lower (asm b) = Keeps-asm host b
    Keeps-lower (throw e) = Keeps-byte host _

    pub Keeps-stmts : (ss : Stmts F) → Keeps host (compile_stmts host ss)
    Keeps-stmts no_stmts c = refl
    Keeps-stmts (more_stmts s ss) c =
        Keeps-stmts ss (lower_stmt host s (enter_stmt host s c))
        ∙ Keeps-lower s (enter_stmt host s c)
        ∙ Keeps-enter s c

    Keeps-opt : (ss : OptStmts F) → KeepsOpt (compile_opt host ss)
    Keeps-opt absent = tt
    Keeps-opt (present ss) = Keeps-stmts ss

    Keeps-arms : (l : Text) (e : Expr F) (arms : Arms F) → Keeps host (compile_arms host l e arms)
    Keeps-arms l e no_arms c = refl
    Keeps-arms l e (more_arms p ss arms) c =
        Keeps-arm_then l e p (compile_stmts host ss) (compile_arms host l e arms) (Keeps-stmts ss)
          (Keeps-arms l e arms) c
