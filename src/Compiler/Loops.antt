-- ===== src/Compiler/Loops.antt =====
-- A `for` loop writes closed code when its body does (src/compiler.rs: `compile_for`).
use cubelang.Base.{ℕ, ◌<◌, [], ◌∷◌, ◌++◌, none, refl, inl, inr, arith, ◌▷◌}
use cubelang.Base.Int.{pos}
use cubelang.Base.Text.{Text, lit}
use cubelang.Bytecode.Op
use cubelang.Bytecode.Operand.{named, imm, type_}
use cubelang.Bytecode.RoundTrip.{encode_operands}
use cubelang.Bytecode.Code.{encode_instr}
use cubelang.Syntax.Expr.{Span, Expr, ident}
use cubelang.Vm.State.{Host}
use cubelang.Compiler.State.{Compiler}
use cubelang.Compiler.Emit.{
  Pass, emit_byte, emit_named, emit_debug, fresh_label, count, label_name, next_id,
}
use cubelang.Compiler.Bytes.{bytes}
use cubelang.Compiler.Output.{
  IsPlain, Writes-nothing, WritesClosed-then, WritesClosed, WritesOne-closed,
}
use cubelang.Compiler.Limits.{IsSmall}
use cubelang.Compiler.Straight.{on_register}
use cubelang.Compiler.Bindings.{Writes-compile_let}
use cubelang.Compiler.Control.{
  for_var, materialise, element_text, create_auto, with_imm, for_start, for_test, for_element,
  for_loop, compile_for,
}
use cubelang.Compiler.Branches.{Writes-compare}
use cubelang.Compiler.Scope.{
  ◌⨾◌, Writes, Writes_closed, Writes-close, Writes-emit_label, Writes-emit_jmp,
  Writes-emit_cond_jump,
}

module _ (host : Host) where
  open host use {hash, floats}
  open host.floats use {F}

  Writes-create_auto : (n : Text) → WritesClosed host (create_auto host n)
  unfolding create_auto encode_instr encode_operands
  Writes-create_auto n = WritesOne-closed host (create_auto host n) (λ c.
      on_register host (create_auto host n) c Op.create n (type_ (hash (lit "auto")) ∷ [])
        (simp bytes) refl (omega arith) (tt, tt))

  Writes-with_imm :
      (code : ℕ) (name : Text) (n : ℕ)
      → IsPlain code
      → n < 256
      → WritesClosed host (with_imm host code name n)
  unfolding with_imm encode_instr encode_operands
  Writes-with_imm code name n ne lt = WritesOne-closed host (with_imm host code name n) (λ c.
      on_register host (with_imm host code name n) c code name (imm (pos n) ∷ []) (simp bytes) ne
        (omega arith) (omega arith, tt))

  abbrev len_of : Text → Text → Pass host
  len_of n_var arr c =
      c
      ▷ emit_debug host Op.len (lit "for: len " ++ arr)
      ▷ emit_byte host Op.len
      ▷ emit_byte host 2
      ▷ emit_named host n_var
      ▷ emit_named host arr

  Writes-len_of : (n_var arr : Text) → WritesClosed host (len_of n_var arr)
  unfolding encode_instr encode_operands
  Writes-len_of n_var arr = WritesOne-closed host (len_of n_var arr) (λ c.
      on_register host (len_of n_var arr) c Op.len n_var (named (hash arr) ∷ []) (simp bytes) refl
        (omega arith) (tt, tt))

  Writes-for_start : (i_var n_var arr : Text) → Writes host [] [] (for_start host i_var n_var arr)
  unfolding for_start
  Writes-for_start i_var n_var arr =
      Writes_closed host (create_auto host i_var) (Writes-create_auto i_var)
      ⨾ Writes_closed host (with_imm host Op.assign i_var 0)
          (Writes-with_imm Op.assign i_var 0 refl (omega arith))
      ⨾ Writes_closed host (len_of n_var arr) (Writes-len_of n_var arr)

  Writes-for_test :
      (i_var n_var end_label : Text)
      → Writes host (hash end_label ∷ []) [] (for_test host i_var n_var end_label)
  unfolding for_test
  Writes-for_test i_var n_var end_label =
      Writes_closed host _ (
        Writes-compare host (named (hash i_var)) (named (hash n_var)) 2 (lit "for: i < n")
          (λ c. c ▷ emit_named host i_var ▷ emit_named host n_var) (λ c. simp bytes) tt tt
          (omega arith))
      ⨾ Writes-emit_cond_jump host end_label

  abbrev index_of : Text → Text → Text → Pass host
  index_of binding arr i_var c =
      c
      ▷ emit_debug host Op.index (element_text host binding arr)
      ▷ emit_byte host Op.index
      ▷ emit_byte host 3
      ▷ emit_named host binding
      ▷ emit_named host arr
      ▷ emit_named host i_var

  Writes-index_of : (binding arr i_var : Text) → WritesClosed host (index_of binding arr i_var)
  unfolding encode_instr encode_operands
  Writes-index_of binding arr i_var = WritesOne-closed host (index_of binding arr i_var) (λ c.
      on_register host (index_of binding arr i_var) c Op.index binding
        (named (hash arr) ∷ named (hash i_var) ∷ []) (simp bytes) refl (omega arith) (tt, (tt, tt)))

  Writes-for_element :
      (binding arr i_var : Text) → Writes host [] [] (for_element host binding arr i_var)
  unfolding for_element
  Writes-for_element binding arr i_var =
      Writes_closed host (create_auto host binding) (Writes-create_auto binding)
      ⨾ Writes_closed host (index_of binding arr i_var) (Writes-index_of binding arr i_var)

  Writes-for_loop :
      (loop_top end_label i_var n_var arr binding : Text) (p : Pass host)
      → WritesClosed host p
      → WritesClosed host (for_loop host loop_top end_label i_var n_var arr binding p)
  unfolding for_loop
  Writes-for_loop loop_top end_label i_var n_var arr binding p hp =
      Writes-close host
        (Writes-for_start i_var n_var arr
          ⨾ Writes-emit_label host loop_top
          ⨾ Writes-for_test i_var n_var end_label
          ⨾ Writes-for_element binding arr i_var
          ⨾ Writes_closed host p hp
          ⨾ Writes_closed host (with_imm host Op.add i_var 1)
              (Writes-with_imm Op.add i_var 1 refl (omega arith))
          ⨾ Writes-emit_jmp host loop_top
          ⨾ Writes-emit_label host end_label)
        (inr (inl refl), (inl refl, tt))

  -- A pass that leaves the iterated register's name behind.
  Writes-materialise :
      (arr_var : Text) (e : Expr F) (span : Span)
      → IsSmall host e
      → WritesClosed host (λ c. (materialise host arr_var e span c).1)
  unfolding materialise
  Writes-materialise arr_var (ident n) span h = Writes-nothing host (λ c. c) (λ c. refl)
  Writes-materialise arr_var e span h =
      Writes-compile_let host (record { name = arr_var; ty = none; value = e; span = span }) h

  pub Writes-compile_for :
      (binding : Text) (e : Expr F) (p : Pass host) (span : Span)
      → IsSmall host e
      → WritesClosed host p
      → WritesClosed host (compile_for host binding e p span)
  unfolding compile_for fresh_label
  Writes-compile_for binding e p span he hp c =
      let n = next_id host c in
      let c1 : Compiler F = count host (count host c) in
      let c2 : Compiler F = count host c1 in
      let loop_top = label_name host (lit "for_top") (next_id host (count host c)) in
      let end_label = label_name host (lit "for_end") (next_id host c1) in
      let arr = (materialise host (for_var host (lit "arr") n) e span c2).0 in
      let i_var = for_var host (lit "i") n in
      let n_var = for_var host (lit "n") n in
      WritesClosed-then host (λ c. (materialise host (for_var host (lit "arr") n) e span c).1)
        (for_loop host loop_top end_label i_var n_var arr binding p)
        (Writes-materialise (for_var host (lit "arr") n) e span he)
        (Writes-for_loop loop_top end_label i_var n_var arr binding p hp) c2
