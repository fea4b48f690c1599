-- ===== src/Compiler/Simples.antt =====
-- Calls, assignments, `let`, `return` and conditions as sequences of instructions with no jump
-- (src/compiler.rs: `emit_call`, `compile_assign`, `compile_let`, `compile_condition`).
use cubelang.Base.{
  ℕ, suc, ◌+◌, ◌<◌, ◌%◌, List, [], ◌∷◌, Option, none, some, length, map, ◌≡◌, refl, arith,
  length-map, ap,
}
use cubelang.Base.Int.{pos}
use cubelang.Base.Text.{Text}
use cubelang.Bytecode.Op
use cubelang.Bytecode.Operand.{Operand, imm, global, no_operand}
use cubelang.Bytecode.RoundTrip.{encode_operands}
use cubelang.Bytecode.Code.{skip, encode_instr}
use cubelang.Syntax.Expr.{BinOp, Expr, exprs, int_lit, ident, call, method_call, bin_op}
use cubelang.Vm.State.{Host}
use cubelang.Compiler.Emit.{Pass, emit_byte}
use cubelang.Compiler.Operands.{
  comparison_kind, compile_comparison, compile_truthy, compile_condition, condition_by, emit_call,
  call_method, pop_into, compile_expr_discard,
}
use cubelang.Compiler.Bytes.{
  bytes, operand_of, operand_of-IsEncodable, operands-IsEncodable, IsWord,
}
use cubelang.Compiler.Output.{
  WritesClosed, WritesClosed-then, writes-instr, WritesOne, WritesOne-closed, Wrote-one,
}
use cubelang.Compiler.Limits.{IsSmall, IsShort}
use cubelang.Compiler.Straight.{on_register}

module _ (host : Host) where
  open host use {hash, floats}
  open host.floats use {F}

  abbrev operands_of : List (Expr F) → List (Operand F)
  operands_of es = map (operand_of host) es

  -- A call has its callee before its arguments.
  one_more : (es : List (Expr F)) → suc (length (operands_of es)) % 256 ≡ (length es + 1) % 256
  one_more es = ap (λ n. n % 256) (omega (arith, length-map (operand_of host) es))

  pub Writes-pop_into : (n : Text) → WritesOne host (pop_into host n)
  unfolding encode_instr encode_operands
  Writes-pop_into n c =
      on_register host (pop_into host n) c Op.pop n [] (simp bytes) refl (omega arith) tt

  pub Writes-emit_call :
      (f : Expr F) (es : List (Expr F)) → IsShort host es → WritesOne host (emit_call host f es)
  unfolding emit_call encode_instr encode_operands
  Writes-emit_call (ident n) es (lt, ok) c =
      writes-instr host (emit_call host (ident n) es) c Op.call
        (global (hash n) ∷ map (operand_of host) es) (simp (bytes, one_more)) refl
        (omega (arith, length-map (operand_of host) es)) (tt, operands-IsEncodable host es ok)
  Writes-emit_call f es (lt, ok) c =
      writes-instr host (emit_call host f es) c Op.call (no_operand ∷ map (operand_of host) es)
        (simp (bytes, one_more)) refl (omega (arith, length-map (operand_of host) es))
        (tt, operands-IsEncodable host es ok)

  Writes-compile_comparison :
      (a : Expr F) (op : BinOp) (b : Expr F) (kind : ℕ)
      → IsWord host a
      → IsWord host b
      → kind < 6
      → WritesOne host (compile_comparison host a op b kind)
  unfolding compile_comparison encode_instr encode_operands
  Writes-compile_comparison a op b kind ha hb lt c =
      writes-instr host (compile_comparison host a op b kind) c Op.compare
        (operand_of host a ∷ operand_of host b ∷ imm (pos kind) ∷ []) (simp bytes) refl
        (omega arith)
        (operand_of-IsEncodable host a ha, (operand_of-IsEncodable host b hb, (omega arith, tt)))

  Writes-compile_truthy : (e : Expr F) → IsWord host e → WritesOne host (compile_truthy host e)
  unfolding compile_truthy encode_instr encode_operands
  Writes-compile_truthy e h c =
      writes-instr host (compile_truthy host e) c Op.compare (operand_of host e ∷ imm (pos 6) ∷ [])
        (simp bytes) refl (omega arith) (operand_of-IsEncodable host e h, (omega arith, tt))

  comparison_kind-lt : (op : BinOp) (kind : ℕ) → comparison_kind op ≡ some kind → kind < 6
  unfolding comparison_kind
  comparison_kind-lt op kind e = ground arith

  Writes-condition_by :
      (found : Option ℕ) (a : Expr F) (op : BinOp) (b : Expr F)
      → comparison_kind op ≡ found
      → IsWord host a
      → IsWord host b
      → WritesOne host (condition_by host found a op b)
  unfolding condition_by
  Writes-condition_by none a op b e ha hb = Writes-compile_truthy (bin_op a op b) tt
  Writes-condition_by (some kind) a op b e ha hb =
      Writes-compile_comparison a op b kind ha hb (comparison_kind-lt op kind e)

  pub IsSmall-IsWord : (e : Expr F) → IsSmall host e → IsWord host e
  IsSmall-IsWord (int_lit n) h = h
  IsSmall-IsWord e h = tt

  pub Writes-compile_condition :
      (e : Expr F) → IsSmall host e → WritesClosed host (compile_condition host e)
  unfolding compile_condition
  Writes-compile_condition (bin_op a op b) h =
      WritesOne-closed host (condition_by host (comparison_kind op) a op b)
        (Writes-condition_by (comparison_kind op) a op b refl h.0 h.1)
  Writes-compile_condition e h =
      WritesOne-closed host (compile_truthy host e) (Writes-compile_truthy e (IsSmall-IsWord e h))

  pub Writes-skip : WritesClosed host (emit_byte host Op.skip)
  unfolding encode_instr
  Writes-skip c =
      (skip ∷ [], Wrote-one host c (emit_byte host Op.skip c) skip (simp bytes) tt, (tt, tt))

  Writes-call_method :
      (m : Text) (es : List (Expr F)) → IsShort host es → WritesOne host (call_method host m es)
  unfolding call_method encode_instr encode_operands
  Writes-call_method m es (lt, ok) c =
      writes-instr host (call_method host m es) c Op.call
        (global (hash m) ∷ map (operand_of host) es) (simp (bytes, one_more)) refl
        (omega (arith, length-map (operand_of host) es)) (tt, operands-IsEncodable host es ok)

  -- One instruction, and a POP for what it pushes.
  pub Writes-popped :
      (p : Pass host) (n : Text) → WritesOne host p → WritesClosed host (λ c. pop_into host n (p c))
  Writes-popped p n w =
      WritesClosed-then host p (pop_into host n) (WritesOne-closed host p w)
        (WritesOne-closed host (pop_into host n) (Writes-pop_into n))

  pub Writes-compile_expr_discard :
      (e : Expr F) → IsSmall host e → WritesClosed host (compile_expr_discard host e)
  unfolding compile_expr_discard
  Writes-compile_expr_discard (call f es) h =
      Writes-popped (emit_call host f (exprs es)) _ (Writes-emit_call f (exprs es) h)
  Writes-compile_expr_discard (method_call e m es) h =
      Writes-popped (call_method host m (exprs es)) _ (Writes-call_method m (exprs es) h)
  Writes-compile_expr_discard e h = Writes-skip
