-- ===== src/Compiler/Branches.antt =====
-- Branches and `while` write closed code when their bodies do (src/compiler.rs: `compile_if`,
-- `compile_while`, and `compile_stmt` on `try` and `atomic`).
use cubelang.Base.{ℕ, ◌<◌, [], ◌∷◌, ◌++◌, Option, none, some, refl, ◌≡◌, inl, inr, arith, ◌▷◌}
use cubelang.Base.Int.{pos}
use cubelang.Base.Text.{Text, lit}
use cubelang.Bytecode.Op
use cubelang.Bytecode.Operand.{Operand, encode_operand, imm}
use cubelang.Bytecode.RoundTrip.{IsEncodable, encode_operands}
use cubelang.Bytecode.Code.{encode_instr}
use cubelang.Syntax.Expr.{Expr}
use cubelang.Vm.State.{Host}
use cubelang.Compiler.State.{Compiler}
use cubelang.Compiler.Emit.{Pass, emit_byte, emit_imm, emit_debug, fresh_label, count}
use cubelang.Compiler.Bytes.{bytes}
use cubelang.Compiler.Output.{Writes-nothing, WritesClosed, WritesOne-closed, writes-instr}
use cubelang.Compiler.Limits.{IsSmall}
use cubelang.Compiler.Operands.{compile_condition}
use cubelang.Compiler.Simples.{Writes-compile_condition}
use cubelang.Compiler.Control.{
  if_else, compile_if, while_loop, compile_while, compile_atomic, try_paths, compile_try,
  or_nothing,
}
use cubelang.Compiler.Scope.{
  ◌⨾◌, Writes, Writes_closed, Writes-close, Writes-emit_debug, Writes-emit_label, Writes-emit_jmp,
  Writes-emit_cond_jump,
}

module _ (host : Host) where
  open host use {hash, floats}
  open host.floats use {F}

  -- What is written for an optional body.
  abbrev pub WritesClosedOpt : Option (Pass host) → Type 0
  WritesClosedOpt none = Unit
  WritesClosedOpt (some p) = WritesClosed host p

  abbrev Condition : (e : Expr F) → IsSmall host e → Writes host [] [] (compile_condition host e)
  Condition e h = Writes_closed host (compile_condition host e) (Writes-compile_condition host e h)

  Writes-if_else :
      (else_label end_label : Text) (e : Expr F) (t : Pass host) (f : Option (Pass host))
      → IsSmall host e
      → WritesClosed host t
      → WritesClosedOpt f
      → WritesClosed host (if_else host else_label end_label e t f)
  unfolding if_else
  Writes-if_else else_label end_label e t (some f) he ht hf =
      Writes-close host
        (Condition e he
          ⨾ Writes-emit_cond_jump host else_label
          ⨾ Writes_closed host t ht
          ⨾ Writes-emit_jmp host end_label
          ⨾ Writes-emit_label host else_label
          ⨾ Writes_closed host f hf
          ⨾ Writes-emit_label host end_label)
        (inl refl, (inr (inl refl), tt))
  Writes-if_else else_label end_label e t none he ht hf =
      Writes-close host
        (Condition e he
          ⨾ Writes-emit_cond_jump host else_label
          ⨾ Writes_closed host t ht
          ⨾ Writes-emit_label host else_label
          ⨾ Writes-emit_label host end_label)
        (inl refl, tt)

  pub Writes-compile_if :
      (e : Expr F) (t : Pass host) (f : Option (Pass host))
      → IsSmall host e
      → WritesClosed host t
      → WritesClosedOpt f
      → WritesClosed host (compile_if host e t f)
  unfolding compile_if fresh_label
  Writes-compile_if e t f he ht hf c = Writes-if_else _ _ e t f he ht hf (count host (count host c))

  Writes-while_loop :
      (loop_label end_label : Text) (e : Expr F) (p : Pass host)
      → IsSmall host e
      → WritesClosed host p
      → WritesClosed host (while_loop host loop_label end_label e p)
  unfolding while_loop
  Writes-while_loop loop_label end_label e p he hp =
      Writes-close host
        (Writes-emit_label host loop_label
          ⨾ Condition e he
          ⨾ Writes-emit_cond_jump host end_label
          ⨾ Writes_closed host p hp
          ⨾ Writes-emit_jmp host loop_label
          ⨾ Writes-emit_label host end_label)
        (inr (inl refl), (inl refl, tt))

  pub Writes-compile_while :
      (e : Expr F) (p : Pass host)
      → IsSmall host e
      → WritesClosed host p
      → WritesClosed host (compile_while host e p)
  unfolding compile_while fresh_label
  Writes-compile_while e p he hp c = Writes-while_loop _ _ e p he hp (count host (count host c))

  abbrev compare : Operand F → Operand F → ℕ → Text → Pass host → Pass host
  compare a b kind d sides c =
      c
      ▷ emit_debug host Op.compare d
      ▷ emit_byte host Op.compare
      ▷ emit_byte host 3
      ▷ sides
      ▷ emit_imm host (pos kind)

  pub Writes-compare :
      (a b : Operand F) (kind : ℕ) (d : Text) (sides : Pass host)
      → ((c : Compiler F)
          → (sides c).bytecode ≡ c.bytecode ++ (encode_operand floats a ++ encode_operand floats b))
      → IsEncodable floats a
      → IsEncodable floats b
      → kind < 256
      → WritesClosed host (compare a b kind d sides)
  unfolding encode_instr encode_operands
  Writes-compare a b kind d sides e ha hb lt =
      WritesOne-closed host (compare a b kind d sides) (λ c.
        writes-instr host (compare a b kind d sides) c Op.compare (a ∷ b ∷ imm (pos kind) ∷ [])
          (simp (e, bytes)) refl (omega arith) (ha, (hb, (omega arith, tt))))

  pub Writes-compile_atomic :
      (p : Pass host) → WritesClosed host p → WritesClosed host (compile_atomic host p)
  unfolding compile_atomic fresh_label emit_debug
  Writes-compile_atomic p w c =
      Writes-close host
        (Writes-emit_label host _
          ⨾ Writes_closed host p w
          ⨾ Writes-emit_debug host Op.label (lit "atomic_end"))
        tt (count host (emit_debug host Op.label (lit "atomic_start") c))

  Writes-or_nothing :
      (p : Option (Pass host)) → WritesClosedOpt p → WritesClosed host (or_nothing host p)
  Writes-or_nothing none h = Writes-nothing host (λ c. c) (λ c. refl)
  Writes-or_nothing (some p) h = h

  Writes-try_paths :
      (catch_label join_label : Text) (p q : Pass host) (r : Option (Pass host))
      → WritesClosed host p
      → WritesClosed host q
      → WritesClosedOpt r
      → WritesClosed host (try_paths host catch_label join_label p q r)
  unfolding try_paths
  Writes-try_paths catch_label join_label p q r hp hq hr =
      Writes-close host
        (Writes-emit_debug host _ _
          ⨾ Writes_closed host p hp
          ⨾ Writes-emit_jmp host join_label
          ⨾ Writes-emit_label host catch_label
          ⨾ Writes_closed host q hq
          ⨾ Writes-emit_label host join_label
          ⨾ Writes_closed host (or_nothing host r) (Writes-or_nothing r hr))
        (inr (inl refl), tt)

  pub Writes-compile_try :
      (p q : Pass host) (r : Option (Pass host))
      → WritesClosed host p
      → WritesClosed host q
      → WritesClosedOpt r
      → WritesClosed host (compile_try host p q r)
  unfolding compile_try fresh_label
  Writes-compile_try p q r hp hq hr c =
      Writes-try_paths _ _ p q r hp hq hr (count host (count host c))
