-- ===== src/Compiler/Bindings.antt =====
-- `let` and `return` as instructions with no jump (src/compiler.rs: `compile_let`,
-- `compile_stmt`).
use cubelang.Base.{
  ℕ, suc, ◌+◌, ◌<◌, ◌%◌, min, List, [], ◌∷◌, ◌++◌, Bool, true, false, Option, none, some, length,
  map, ◌≡◌, refl, arith, ◌▷◌, length-map, ◌∙◌,
}
use cubelang.Base.Int.{pos}
use cubelang.Base.Text.{Text, lit}
use cubelang.Bytecode.Op
use cubelang.Bytecode.Operand.{Operand, named, imm, type_, encode_operand}
use cubelang.Bytecode.RoundTrip.{encode_operands, IsEncodable}
use cubelang.Bytecode.Code.{encode_instr}
use cubelang.Syntax.Expr.{TypeExpr, Expr, exprs, ident, index, call, method_call, array_lit}
use cubelang.Syntax.Stmt.{LetStmt}
use cubelang.Vm.State.{Host}
use cubelang.Compiler.State.{Compiler}
use cubelang.Compiler.Emit.{Pass, emit_named, emit_debug}
use cubelang.Compiler.Operands.{emit_call, pop_into, compile_expr_operand}
use cubelang.Compiler.Bytes.{
  bytes, bytes_debug, bytes_named, bytes_operand, operand_of, operand_of-IsEncodable,
  operands-IsEncodable, IsWord,
}
use cubelang.Compiler.Output.{
  WritesClosed, WritesClosed-then, writes-instr, WritesOne, WritesOne-closed,
}
use cubelang.Compiler.Limits.{IsSmall, IsShort, IsSmallValue}
use cubelang.Compiler.Straight.{on_register}
use cubelang.Compiler.Simples.{Writes-popped, Writes-emit_call, IsSmall-IsWord}
use cubelang.Compiler.Simple.{
  container_of, declare, let_call, let_array, let_len, let_index, let_value, let_method,
  let_element, let_rhs, compile_let, type_text, return_register, return_value, return_call,
  compile_return, is_len,
}

module _ (host : Host) where
  open host use {hash, floats}
  open host.floats use {F}

  Writes-declare : (n : Text) (ty : Option TypeExpr) → WritesClosed host (declare host n ty)
  unfolding declare encode_instr encode_operands
  Writes-declare n ty = WritesOne-closed host (declare host n ty) (λ c.
      on_register host (declare host n ty) c Op.create n (type_ (hash (type_text host ty)) ∷ [])
        (simp bytes) refl (omega arith) (tt, tt))

  -- The line of the debug map is no code.
  WritesOne-debug :
      (p : Pass host) (code : ℕ) (d : Text)
      → WritesOne host p
      → WritesOne host (λ c. emit_debug host code d (p c))
  WritesOne-debug p code d w c =
      let (i, (e, ok), plain) = w c in (i, (bytes_debug host code d (p c) ∙ e, ok), plain)

  Writes-let_call :
      (n : Text) (f : Expr F) (es : List (Expr F))
      → IsShort host es
      → WritesClosed host (let_call host n f es)
  unfolding let_call
  Writes-let_call n f es h =
      Writes-popped host _ n
        (WritesOne-debug (emit_call host f es) _ _ (Writes-emit_call host f es h))

  -- `(n as u8).saturating_add(2)` counts the name and the length too.
  two_more :
      (es : List (Expr F))
      → length es < 254
      → min (length es % 256 + 2) 255 ≡ suc (suc (length (map (operand_of host) es))) % 256
  two_more es lt = omega (arith, length-map (operand_of host) es)

  Writes-let_array :
      (n : Text) (es : List (Expr F)) → IsShort host es → WritesClosed host (let_array host n es)
  unfolding let_array encode_instr encode_operands
  Writes-let_array n es (lt, ok) = WritesOne-closed host (let_array host n es) (λ c.
      on_register host (let_array host n es) c Op.make_array n
        (imm (pos (length es)) ∷ map (operand_of host) es) (simp (bytes, two_more es lt)) refl
        (omega (arith, length-map (operand_of host) es))
        (omega arith, operands-IsEncodable host es ok))

  Writes-let_len : (n arr : Text) → WritesClosed host (let_len host n arr)
  unfolding let_len encode_instr encode_operands
  Writes-let_len n arr = WritesOne-closed host (let_len host n arr) (λ c.
      on_register host (let_len host n arr) c Op.len n (named (hash arr) ∷ []) (simp bytes) refl
        (omega arith) (tt, tt))

  Writes-let_index :
      (n arr : Text) (key : Expr F) → IsWord host key → WritesClosed host (let_index host n arr key)
  unfolding let_index encode_instr encode_operands
  Writes-let_index n arr key h = WritesOne-closed host (let_index host n arr key) (λ c.
      on_register host (let_index host n arr key) c Op.index n
        (named (hash arr) ∷ operand_of host key ∷ []) (simp bytes) refl (omega arith)
        (tt, (operand_of-IsEncodable host key h, tt)))

  Writes-let_value :
      (n : Text) (e : Expr F) → IsWord host e → WritesClosed host (let_value host n e)
  unfolding let_value encode_instr encode_operands
  Writes-let_value n e h = WritesOne-closed host (let_value host n e) (λ c.
      on_register host (let_value host n e) c Op.assign n (operand_of host e ∷ []) (simp bytes) refl
        (omega arith) (operand_of-IsEncodable host e h, tt))

  Writes-let_method :
      (is_length : Bool) (n arr : Text) (e : Expr F)
      → IsWord host e
      → WritesClosed host (let_method host is_length n arr e)
  unfolding let_method
  Writes-let_method true n arr e h = Writes-let_len n arr
  Writes-let_method false n arr e h = Writes-let_value n e h

  Writes-let_element :
      (container : Option Text) (n : Text) (base key : Expr F)
      → IsWord host key
      → WritesClosed host (let_element host container n base key)
  unfolding let_element
  Writes-let_element none n base key h = Writes-let_value n (index base key) tt
  Writes-let_element (some arr) n base key h = Writes-let_index n arr key h

  Writes-let_rhs : (n : Text) (e : Expr F) → IsSmall host e → WritesClosed host (let_rhs host n e)
  unfolding let_rhs
  Writes-let_rhs n (call f es) h = Writes-let_call n f (exprs es) h
  Writes-let_rhs n (array_lit es) h = Writes-let_array n (exprs es) h
  Writes-let_rhs n (index base key) h = Writes-let_element (container_of base) n base key h
  Writes-let_rhs n (method_call (ident arr) m es) h =
      Writes-let_method (is_len host m (exprs es)) n arr (method_call (ident arr) m es) tt
  Writes-let_rhs n e h = Writes-let_value n e (IsSmall-IsWord host e h)

  pub Writes-compile_let :
      (l : LetStmt F) → IsSmall host l.value → WritesClosed host (compile_let host l)
  unfolding compile_let
  Writes-compile_let l h =
      WritesClosed-then host (declare host l.name l.ty) (let_rhs host l.name l.value)
        (Writes-declare l.name l.ty) (Writes-let_rhs l.name l.value h)

  Writes-return_value :
      (p : Pass host) (o : Operand F)
      → ((c : Compiler F) → (p c).bytecode ≡ c.bytecode ++ encode_operand floats o)
      → IsEncodable floats o
      → WritesClosed host (return_value host p)
  unfolding encode_instr encode_operands
  Writes-return_value p o writes ok = WritesOne-closed host (return_value host p) (λ c.
      writes-instr host (return_value host p) c Op.return (o ∷ []) (simp (writes, bytes)) refl
        (omega arith) (ok, tt))

  Writes-return_none : WritesClosed host (compile_return host none)
  unfolding compile_return encode_instr encode_operands
  Writes-return_none = WritesOne-closed host (compile_return host none) (λ c.
      writes-instr host (compile_return host none) c Op.return [] (simp bytes) refl (omega arith)
        tt)

  abbrev let_popped : Expr F → List (Expr F) → Pass host
  let_popped f es c =
      c
      ▷ emit_call host f es
      ▷ emit_debug host Op.pop (lit "pop __return_call")
      ▷ pop_into host (return_register host)

  Writes-return_call :
      (f : Expr F) (es : List (Expr F))
      → IsShort host es
      → WritesClosed host (return_call host f es)
  unfolding return_call
  Writes-return_call f es h =
      WritesClosed-then host (let_popped f es)
        (return_value host (emit_named host (return_register host)))
        (Writes-popped host _ (return_register host)
          (WritesOne-debug (emit_call host f es) _ _ (Writes-emit_call host f es h)))
        (Writes-return_value (emit_named host (return_register host))
          (named (hash (return_register host))) (bytes_named host (return_register host)) tt)

  pub Writes-compile_return :
      (v : Option (Expr F)) → IsSmallValue host v → WritesClosed host (compile_return host v)
  unfolding compile_return
  Writes-compile_return none h = Writes-return_none
  Writes-compile_return (some (call f es)) h = Writes-return_call f (exprs es) h
  Writes-compile_return (some e) h =
      Writes-return_value (compile_expr_operand host e) (operand_of host e) (bytes_operand host e)
        (operand_of-IsEncodable host e (IsSmall-IsWord host e h))
