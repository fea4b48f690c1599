-- ===== src/Compiler/Matches.antt =====
-- A `match` writes closed code when the bodies of its arms do (src/compiler.rs: `compile_match`).
use cubelang.Base.{[], ◌∷◌, Bool, true, false, refl, inl, inr, arith, ◌▷◌}
use cubelang.Base.Text.{Text, lit}
use cubelang.Syntax.Expr.{Expr}
use cubelang.Vm.State.{Host}
use cubelang.Compiler.Emit.{Pass, fresh_label, count, label_name, next_id}
use cubelang.Compiler.Bytes.{bytes, operand_of, operand_of-IsEncodable, IsWord}
use cubelang.Compiler.Output.{Writes-nothing, WritesClosed}
use cubelang.Compiler.Operands.{compile_expr_operand}
use cubelang.Compiler.Control.{is_wildcard_pattern, arm_by, compile_match, match_arm, arm_then}
use cubelang.Compiler.Branches.{Writes-compare}
use cubelang.Compiler.Scope.{
  ◌⨾◌, Writes, Writes_closed, Writes-close, Writes-resolve, Writes-emit_label, Writes-emit_jmp,
  Writes-emit_cond_jump,
}

module _ (host : Host) where
  open host use {hash, floats}
  open host.floats use {F}

  abbrev sides : Expr F → Expr F → Pass host
  sides subject pattern c =
      c ▷ compile_expr_operand host subject ▷ compile_expr_operand host pattern

  Writes-match_arm :
      (end_label next_label : Text) (subject pattern : Expr F) (p : Pass host)
      → IsWord host subject
      → IsWord host pattern
      → WritesClosed host p
      → Writes host (hash end_label ∷ []) [] (match_arm host end_label next_label subject pattern p)
  unfolding match_arm
  Writes-match_arm end_label next_label subject pattern p hs hp w =
      Writes-resolve host (hash end_label ∷ [])
        (Writes_closed host _ (
            Writes-compare host (operand_of host subject) (operand_of host pattern) 0 _
              (sides subject pattern) (λ c. simp bytes) (operand_of-IsEncodable host subject hs)
              (operand_of-IsEncodable host pattern hp) (omega arith))
          ⨾ Writes-emit_cond_jump host next_label
          ⨾ Writes_closed host p w
          ⨾ Writes-emit_jmp host end_label
          ⨾ Writes-emit_label host next_label)
        (inl (inl refl), (inr (inl refl), tt))

  Writes-arm_by :
      (any : Bool) (end_label : Text) (subject pattern : Expr F) (p rest : Pass host)
      → IsWord host subject
      → IsWord host pattern
      → WritesClosed host p
      → Writes host (hash end_label ∷ []) [] rest
      → Writes host (hash end_label ∷ []) [] (arm_by host any end_label subject pattern p rest)
  unfolding arm_by fresh_label
  Writes-arm_by true end_label subject pattern p rest hs hp w v =
      Writes-resolve host (hash end_label ∷ []) (Writes_closed host p w) tt
  Writes-arm_by false end_label subject pattern p rest hs hp w v = record {
    written = λ c.
        (Writes-resolve host (hash end_label ∷ [])
            (Writes-match_arm end_label (label_name host (lit "arm") (next_id host c)) subject
                pattern p hs hp w
              ⨾ v)
            (inr (inl refl), (inr (inl refl), tt))).written
          (count host c);
  }

  pub Writes-arm_then :
      (end_label : Text) (subject pattern : Expr F) (p rest : Pass host)
      → IsWord host subject
      → IsWord host pattern
      → WritesClosed host p
      → Writes host (hash end_label ∷ []) [] rest
      → Writes host (hash end_label ∷ []) [] (arm_then host end_label subject pattern p rest)
  unfolding arm_then
  Writes-arm_then end_label subject pattern =
      Writes-arm_by (is_wildcard_pattern pattern) end_label subject pattern

  -- No arm is left: nothing is written.
  pub Writes-no_arms : (end_label : Text) → Writes host (hash end_label ∷ []) [] (λ c. c)
  Writes-no_arms end_label =
      Writes-resolve host (hash end_label ∷ [])
        (Writes_closed host (λ c. c) (Writes-nothing host (λ c. c) (λ c. refl))) tt

  pub Writes-compile_match :
      (arms : Text → Pass host)
      → ((end_label : Text) → Writes host (hash end_label ∷ []) [] (arms end_label))
      → WritesClosed host (compile_match host arms)
  unfolding compile_match fresh_label
  Writes-compile_match arms w c =
      Writes-close host (w _ ⨾ Writes-emit_label host _) (inl refl, tt) (count host c)
