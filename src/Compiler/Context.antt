-- ===== src/Compiler/Context.antt =====
-- What lowering leaves alone: the modules in use, the interfaces of the file, and the errors of the
-- checks on declarations (src/compiler.rs: `emit_*`, `compile_stmt`).
use cubelang.Base.{ℕ, List, [], ◌∷◌, Option, none, some, ◌≡◌, refl, ◌∙◌, arith}
use cubelang.Base.Int.{ℤ}
use cubelang.Base.Text.{Text}
use cubelang.Base.Dict.{Dict}
use cubelang.Syntax.Decl.{InterfaceDecl}
use cubelang.Syntax.Expr.{
  BinOp, Expr, int_lit, float_lit, string_lit, bool_lit, null, ident, self_access, field, call,
  method_call, bin_op,
}
use cubelang.Vm.State.{Host}
use cubelang.Compiler.State.{Compiler, ParseError}
use cubelang.Compiler.Emit.{
  Pass, emit_byte, emit_bytes, emit_hash, emit_named, emit_imm, emit_float_imm, emit_type,
  emit_role, emit_none, record_symbol, emit_global, emit_debug, emit_label, emit_jmp,
  emit_cond_jump,
}
use cubelang.Compiler.Operands.{
  operand_error, not_an_operand, compile_expr_operand, compile_operands, emit_call, call_method,
  pop_into, compile_expr_discard, comparison_kind, compile_comparison, compile_truthy, condition_by,
  compile_condition,
}

module _ (host : Host) where
  open host use {hash, floats}
  open host.floats use {F}

  abbrev pub Context : Type 0
  Context = List Text × Dict Text InterfaceDecl × List (ParseError F) × List (ParseError F)

  unfoldable pub context : Compiler F → Context
  context c = (c.used_modules, c.inline_interfaces, c.interface_errors, c.capability_errors)

  abbrev pub Keeps : Pass host → Type 0
  Keeps p = (c : Compiler F) → context (p c) ≡ context c

  pub Keeps-byte : (b : ℕ) → Keeps (emit_byte host b)
  unfolding context emit_byte
  Keeps-byte b c = refl

  Keeps-bytes : (bs : List ℕ) → Keeps (emit_bytes host bs)
  unfolding emit_bytes
  Keeps-bytes [] c = refl
  Keeps-bytes (b ∷ bs) c = simp (Keeps-bytes bs, Keeps-byte)

  Keeps-hash : (h : ℕ × ℕ) → Keeps (emit_hash host h)
  unfolding emit_hash
  Keeps-hash h c = simp Keeps-byte

  pub Keeps-debug : (op : ℕ) (d : Text) → Keeps (emit_debug host op d)
  unfolding context emit_debug
  Keeps-debug op d c = refl

  pub Keeps-symbol : (s : Text) → Keeps (record_symbol host s)
  unfolding context record_symbol
  Keeps-symbol s c = ground arith

  ruleset basic = (Keeps-byte, Keeps-bytes, Keeps-hash, Keeps-debug, Keeps-symbol)

  pub Keeps-named : (n : Text) → Keeps (emit_named host n)
  unfolding emit_named
  Keeps-named n c = simp basic

  pub Keeps-imm : (n : ℤ) → Keeps (emit_imm host n)
  unfolding emit_imm
  Keeps-imm n c = simp basic

  pub Keeps-float : (x : F) → Keeps (emit_float_imm host x)
  unfolding emit_float_imm
  Keeps-float x c = simp basic

  pub Keeps-type : (n : Text) → Keeps (emit_type host n)
  unfolding emit_type
  Keeps-type n c = simp basic

  pub Keeps-role : (n : Text) → Keeps (emit_role host n)
  unfolding emit_role
  Keeps-role n c = simp basic

  pub Keeps-none : Keeps (emit_none host)
  unfolding emit_none
  Keeps-none c = simp basic

  pub Keeps-global : (n : Text) → Keeps (emit_global host n)
  unfolding emit_global
  Keeps-global n c = simp basic

  Keeps-labels : (l : List (Text × ℕ)) → Keeps (λ c. record c { labels = l })
  unfolding context
  Keeps-labels l c = refl

  pub Keeps-label : (n : Text) → Keeps (emit_label host n)
  unfolding emit_label
  Keeps-label n c = simp (basic, Keeps-global) (Keeps-labels _ c)

  pub Keeps-jmp : (n : Text) → Keeps (emit_jmp host n)
  unfolding emit_jmp
  Keeps-jmp n c = simp (basic, Keeps-global)

  pub Keeps-cond : (n : Text) → Keeps (emit_cond_jump host n)
  unfolding emit_cond_jump
  Keeps-cond n c = simp (basic, Keeps-global)

  pub ruleset emitters = (
    Keeps-byte, Keeps-debug, Keeps-symbol, Keeps-named, Keeps-imm, Keeps-float, Keeps-type,
    Keeps-role, Keeps-none, Keeps-global, Keeps-label, Keeps-jmp, Keeps-cond,
  )

  pub Keeps-error : (e : ParseError F) → Keeps (operand_error host e)
  unfolding context operand_error
  Keeps-error e c = refl

  Keeps-refused : (e : Expr F) → Keeps (not_an_operand host e)
  unfolding not_an_operand
  Keeps-refused e c = simp (Keeps-none, Keeps-error)

  pub Keeps-operand : (e : Expr F) → Keeps (compile_expr_operand host e)
  unfolding compile_expr_operand
  Keeps-operand (int_lit n) c = Keeps-imm n c
  Keeps-operand (float_lit x) c = Keeps-float x c
  Keeps-operand (string_lit s) c = Keeps-global s c
  Keeps-operand (bool_lit b) c = Keeps-imm _ c
  Keeps-operand null c = Keeps-imm _ c
  Keeps-operand (ident n) c = Keeps-named n c
  Keeps-operand (self_access f) c = Keeps-named f c
  Keeps-operand (field base f) c = Keeps-named _ c
  Keeps-operand e c = Keeps-refused _ c

  pub Keeps-operands : (es : List (Expr F)) → Keeps (compile_operands host es)
  unfolding compile_operands
  Keeps-operands [] c = refl
  Keeps-operands (e ∷ es) c = Keeps-operands es (compile_expr_operand host e c) ∙ Keeps-operand e c

  pub Keeps-call : (f : Expr F) (es : List (Expr F)) → Keeps (emit_call host f es)
  unfolding emit_call
  Keeps-call (ident n) es c = simp (emitters, Keeps-operands)
  Keeps-call f es c = simp (emitters, Keeps-operands)

  Keeps-method : (m : Text) (es : List (Expr F)) → Keeps (call_method host m es)
  unfolding call_method
  Keeps-method m es c = simp (emitters, Keeps-operands)

  pub Keeps-pop : (n : Text) → Keeps (pop_into host n)
  Keeps-pop n c = simp emitters

  pub Keeps-discard : (e : Expr F) → Keeps (compile_expr_discard host e)
  unfolding compile_expr_discard
  Keeps-discard (call f es) c = simp (emitters, Keeps-call)
  Keeps-discard (method_call e m es) c = simp (emitters, Keeps-method)
  Keeps-discard e c = Keeps-byte _ c

  Keeps-comparison :
      (a : Expr F) (op : BinOp) (b : Expr F) (kind : ℕ)
      → Keeps (compile_comparison host a op b kind)
  unfolding compile_comparison
  Keeps-comparison a op b kind c = simp (emitters, Keeps-operand)

  Keeps-truthy : (e : Expr F) → Keeps (compile_truthy host e)
  unfolding compile_truthy
  Keeps-truthy e c = simp (emitters, Keeps-operand)

  Keeps-by :
      (k : Option ℕ) (a : Expr F) (op : BinOp) (b : Expr F) → Keeps (condition_by host k a op b)
  unfolding condition_by
  Keeps-by none a op b c = Keeps-truthy (bin_op a op b) c
  Keeps-by (some k) a op b c = Keeps-comparison a op b k c

  pub Keeps-condition : (e : Expr F) → Keeps (compile_condition host e)
  unfolding compile_condition
  Keeps-condition (bin_op a op b) c = Keeps-by (comparison_kind op) a op b c
  Keeps-condition e c = Keeps-truthy _ c
