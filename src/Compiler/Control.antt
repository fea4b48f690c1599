-- ===== src/Compiler/Control.antt =====
-- Control flow, over the passes of the bodies (src/compiler.rs: `compile_if`, `compile_for`,
-- `compile_while`, `compile_match`, and `compile_stmt` on `try` and `atomic`).
use cubelang.Base.{ℕ, ◌++◌, Bool, true, false, Option, none, some, ◌▷◌}
use cubelang.Base.Int.{pos}
use cubelang.Base.Text.{Text, lit, show_nat}
use cubelang.Base.Equal.{list_eq}
use cubelang.Bytecode.Op
use cubelang.Syntax.Expr.{Span, Expr, ident}
use cubelang.Vm.State.{Host}
use cubelang.Compiler.State.{Compiler}
use cubelang.Compiler.Emit.{
  Pass, emit_byte, emit_named, emit_imm, emit_type, emit_debug, emit_label, emit_jmp,
  emit_cond_jump, fresh_label, next_id, count,
}
use cubelang.Compiler.Operands.{compile_expr_operand, compile_condition}
use cubelang.Compiler.Simple.{compile_let}

unfoldable pub is_wildcard_pattern : {F : Type 0} → Expr F → Bool
is_wildcard_pattern (ident name) = list_eq name (lit "_")
is_wildcard_pattern _ = false

module _ (host : Host) where
  open host.floats use {F}

  -- The end of the then-body jumps over the else-body, where there is one.
  unfoldable pub if_else : Text → Text → Expr F → Pass host → Option (Pass host) → Pass host
  if_else else_label end_label condition then_body (some else_body) c =
      c
      ▷ compile_condition host condition
      ▷ emit_cond_jump host else_label
      ▷ then_body
      ▷ emit_jmp host end_label
      ▷ emit_label host else_label
      ▷ else_body
      ▷ emit_label host end_label
  if_else else_label end_label condition then_body none c =
      c
      ▷ compile_condition host condition
      ▷ emit_cond_jump host else_label
      ▷ then_body
      ▷ emit_label host else_label
      ▷ emit_label host end_label

  unfoldable pub compile_if : Expr F → Pass host → Option (Pass host) → Pass host
  compile_if condition then_body else_body c =
      let (else_label, c1) = fresh_label host (lit "else") c in
      let (end_label, c2) = fresh_label host (lit "endif") c1 in
      if_else else_label end_label condition then_body else_body c2

  unfoldable pub while_loop : Text → Text → Expr F → Pass host → Pass host
  while_loop loop_label end_label condition body c =
      c
      ▷ emit_label host loop_label
      ▷ compile_condition host condition
      ▷ emit_cond_jump host end_label
      ▷ body
      ▷ emit_jmp host loop_label
      ▷ emit_label host end_label

  unfoldable pub compile_while : Expr F → Pass host → Pass host
  compile_while condition body c =
      let (loop_label, c1) = fresh_label host (lit "while") c in
      let (end_label, c2) = fresh_label host (lit "endwhile") c1 in
      while_loop loop_label end_label condition body c2

  -- The iterated value as a register: an identifier's own, or one that a `let` fills.
  unfoldable pub materialise : Text → Expr F → Span → Compiler F → Text × Compiler F
  materialise arr_var (ident n) span c = (n, c)
  materialise arr_var other span c = (
    arr_var,
    compile_let host (record { name = arr_var; ty = none; value = other; span = span }) c,
  )

  unfoldable pub create_auto : Text → Pass host
  create_auto name c =
      c
      ▷ emit_byte host Op.create
      ▷ emit_byte host 2
      ▷ emit_named host name
      ▷ emit_type host (lit "auto")

  unfoldable pub with_imm : ℕ → Text → ℕ → Pass host
  with_imm code name n c =
      c ▷ emit_byte host code ▷ emit_byte host 2 ▷ emit_named host name ▷ emit_imm host (pos n)

  -- The index and the length.
  unfoldable pub for_start : Text → Text → Text → Pass host
  for_start i_var n_var arr c =
      c
      ▷ create_auto i_var
      ▷ with_imm Op.assign i_var 0
      ▷ emit_debug host Op.len (lit "for: len " ++ arr)
      ▷ emit_byte host Op.len
      ▷ emit_byte host 2
      ▷ emit_named host n_var
      ▷ emit_named host arr

  unfoldable pub for_test : Text → Text → Text → Pass host
  for_test i_var n_var end_label c =
      c
      ▷ emit_debug host Op.compare (lit "for: i < n")
      ▷ emit_byte host Op.compare
      ▷ emit_byte host 3
      ▷ emit_named host i_var
      ▷ emit_named host n_var
      ▷ emit_imm host (pos 2)
      ▷ emit_cond_jump host end_label

  abbrev pub element_text : Text → Text → Text
  element_text binding arr = lit "for: " ++ (binding ++ (lit " = " ++ (arr ++ lit "[i]")))

  unfoldable pub for_element : Text → Text → Text → Pass host
  for_element binding arr i_var c =
      c
      ▷ create_auto binding
      ▷ emit_debug host Op.index (element_text binding arr)
      ▷ emit_byte host Op.index
      ▷ emit_byte host 3
      ▷ emit_named host binding
      ▷ emit_named host arr
      ▷ emit_named host i_var

  unfoldable pub for_loop : Text → Text → Text → Text → Text → Text → Pass host → Pass host
  for_loop loop_top end_label i_var n_var arr binding body c =
      c
      ▷ for_start i_var n_var arr
      ▷ emit_label host loop_top
      ▷ for_test i_var n_var end_label
      ▷ for_element binding arr i_var
      ▷ body
      ▷ with_imm Op.add i_var 1
      ▷ emit_jmp host loop_top
      ▷ emit_label host end_label

  abbrev pub for_var : Text → ℕ → Text
  for_var kind n = lit "__for_" ++ (kind ++ (lit "_" ++ show_nat n))

  unfoldable pub compile_for : Text → Expr F → Pass host → Span → Pass host
  compile_for binding iter body span c =
      let n = next_id host c in
      let (loop_top, c1) = fresh_label host (lit "for_top") (count host c) in
      let (end_label, c2) = fresh_label host (lit "for_end") c1 in
      let (arr, c3) = materialise (for_var (lit "arr") n) iter span c2 in
      for_loop loop_top end_label (for_var (lit "i") n) (for_var (lit "n") n) arr binding body c3

  -- One tested arm: on a mismatch to the next arm, after its body to the end.
  unfoldable pub match_arm : Text → Text → Expr F → Expr F → Pass host → Pass host
  match_arm end_label next_label subject pattern body c =
      c
      ▷ emit_debug host Op.compare (lit "match arm ==")
      ▷ emit_byte host Op.compare
      ▷ emit_byte host 3
      ▷ compile_expr_operand host subject
      ▷ compile_expr_operand host pattern
      ▷ emit_imm host (pos 0)
      ▷ emit_cond_jump host next_label
      ▷ body
      ▷ emit_jmp host end_label
      ▷ emit_label host next_label

  -- The arms from this one on; a wildcard is the last arm that is emitted.
  unfoldable pub arm_by : Bool → Text → Expr F → Expr F → Pass host → Pass host → Pass host
  arm_by true end_label subject pattern body rest c = body c
  arm_by false end_label subject pattern body rest c =
      let (next_label, c1) = fresh_label host (lit "arm") c in
      rest (match_arm end_label next_label subject pattern body c1)

  unfoldable pub arm_then : Text → Expr F → Expr F → Pass host → Pass host → Pass host
  arm_then end_label subject pattern =
      arm_by (is_wildcard_pattern pattern) end_label subject pattern

  -- The arms are compiled for an end label that is drawn first.
  unfoldable pub compile_match : (Text → Pass host) → Pass host
  compile_match arms c =
      let (end_label, c1) = fresh_label host (lit "endmatch") c in
      c1 ▷ arms end_label ▷ emit_label host end_label

  unfoldable pub compile_atomic : Pass host → Pass host
  compile_atomic body c =
      let (label, c1) =
        fresh_label host (lit "atomic") (emit_debug host Op.label (lit "atomic_start") c) in
      c1 ▷ emit_label host label ▷ body ▷ emit_debug host Op.label (lit "atomic_end")

  abbrev pub or_nothing : Option (Pass host) → Pass host
  or_nothing (some p) = p
  or_nothing none = λ c. c

  abbrev pub join_prefix : Option (Pass host) → Text
  join_prefix (some p) = lit "finally"
  join_prefix none = lit "try_end"

  -- Both paths meet at the join label, and the `finally` body runs from there.
  unfoldable pub try_paths : Text → Text → Pass host → Pass host → Option (Pass host) → Pass host
  try_paths catch_label join_label try_body catch_body finally_body c =
      c
      ▷ emit_debug host Op.label (lit "try_start")
      ▷ try_body
      ▷ emit_jmp host join_label
      ▷ emit_label host catch_label
      ▷ catch_body
      ▷ emit_label host join_label
      ▷ or_nothing finally_body

  unfoldable pub compile_try : Pass host → Pass host → Option (Pass host) → Pass host
  compile_try try_body catch_body finally_body c =
      let (catch_label, c1) = fresh_label host (lit "catch") c in
      let (join_label, c2) = fresh_label host (join_prefix finally_body) c1 in
      try_paths catch_label join_label try_body catch_body finally_body c2
