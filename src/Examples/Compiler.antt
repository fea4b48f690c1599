-- ===== src/Examples/Compiler.antt =====
-- Runs of the compiler's theorems: a function with a loop, a branch and a match.
use cubelang.Base.{ℕ, List, [], ◌∷◌, Bool, true, false, none, some, ◌≡◌, refl, inr, All, arith}
use cubelang.Base.Int.{pos, le_bytes}
use cubelang.Base.Text.{Text, lit, show_nat}
use cubelang.Syntax.Expr.{Span, TypeExpr, Param, BinOp, int_lit, ident, bin_op}
use cubelang.Syntax.Stmt.{
  AssignOp, Stmt, assign, if_, while_, match_, return, more_stmts, no_stmts, present, more_arms,
  no_arms,
}
use cubelang.Syntax.Decl.{FunctionSig, FunctionDecl, ProgramItem, TopLevel, SourceFile}
use cubelang.Bytecode.Op
use cubelang.Program.{CompiledFunction, CompiledProgram, Access}
use cubelang.Compiler.Accepted.{IsLawfulItem, compile_ast-IsLawful}
use cubelang.Compiler.State.{new}
use cubelang.Base.Dict.{lookup}
use cubelang.Interfaces
use cubelang.Vm.Registry
use cubelang.Compiler.Emit.{
  emit_byte, emit_debug, fresh_label, emit_label, emit_jmp, emit_cond_jump, emit_global, emit_named,
  emit_imm, emit_bytes, emit_hash, record_symbol,
}
use cubelang.Compiler.Simple.{
  compile_return, compile_assign, assign_to, assign_register, assign_opcode,
}
use cubelang.Compiler.Strict.{stmt_span}
use cubelang.Compiler.Lower.{
  compile_arms, compile_opt, compile_stmts, lower_stmt, enter_stmt, note_span, strict_check,
}
use cubelang.Compiler.Checks.{
  access_of, access_from, check_implements, check_claims, check_interfaces, check_interface,
  check_resolved, check_members, check_member, provides, resolve_interface, check_override_validity,
  may_override, check_sealed_collision, sealed_by,
}
use cubelang.Compiler.Programs.{
  compile_function, compile_ast, used_names, inline_decls, compile_items_of, compile_programs,
  compile_program, start_program, compile_items, compiled, compile_body, start_function,
  check_capability, check_attributes,
}
use cubelang.Compiler.Sound.{AreSound, compile_ast-AreSound}
use cubelang.Compiler.Control.{
  compile_while, while_loop, compile_if, if_else, compile_match, arm_then, arm_by, match_arm,
  is_wildcard_pattern,
}
use cubelang.Compiler.Operands.{
  compile_condition, condition_by, comparison_kind, compile_comparison, compile_expr_operand,
}
use cubelang.Compiler.Limits.{AreSmall}
use cubelang.Examples.Parameters.{small_host}

abbrev here : Span
here = record { line = 1; col = 1; offset = 0 }

abbrev sig : FunctionSig
sig = record {
  permissions = [];
  modifiers = [];
  name = lit "count";
  params = [];
  return_type = TypeExpr.void;
  is_override = false;
  span = here;
}

abbrev input : Param
input = record { name = lit "x"; ty = TypeExpr.void; span = here }

-- `x += n;`
abbrev bump : ℕ → Stmt Bool
bump n = assign (record {
  target = ident (lit "x");
  op = AssignOp.plus_eq;
  value = int_lit (pos n);
  span = here;
})

-- `while (x < 9) { if (x == 3) { x += 2; } else { x += 1; } match (x) { 7 => return x; _ => x += 1; } }`
abbrev counting : FunctionDecl Bool
counting = record {
  sig = record sig { name = lit "solve"; params = input ∷ [] };
  body =
      more_stmts
        (while_ (bin_op (ident (lit "x")) BinOp.lt (int_lit (pos 9)))
          (more_stmts
            (if_ (bin_op (ident (lit "x")) BinOp.eq (int_lit (pos 3)))
              (more_stmts (bump 2) no_stmts) (present (more_stmts (bump 1) no_stmts)) here)
            (more_stmts
              (match_ (ident (lit "x"))
                (more_arms (int_lit (pos 7)) (more_stmts (return (some (ident (lit "x")))) no_stmts)
                  (more_arms (ident (lit "_")) (more_stmts (bump 1) no_stmts) no_arms))
                here)
              no_stmts))
          here)
        no_stmts;
}

counting-AreSmall : AreSmall small_host counting.body
counting-AreSmall = (
  (
    (tt, omega arith),
    (
      ((tt, omega arith), ((tt, omega arith), tt), ((tt, omega arith), tt)),
      ((tt, (omega arith, (tt, tt), (tt, ((tt, omega arith), tt), tt))), tt),
    ),
  ),
  tt,
)

-- `program C implements ISolve { function solve(x) { ... } }`
abbrev counting_file : SourceFile Bool
counting_file = record {
  items =
      TopLevel.program (record {
        name = lit "C";
        implements = lit "ISolve" ∷ [];
        body = ProgramItem.function counting ∷ [];
        span = here;
      })
      ∷ [];
}

abbrev counting_programs : List CompiledProgram
counting_programs = (compile_items_of small_host counting_file new).0

counting_accepted : compile_ast small_host counting_file ≡ inr counting_programs
unfolding compile_ast compile_items_of used_names inline_decls compile_programs compile_program
    start_program check_implements check_claims check_interfaces check_interface check_resolved
    check_members check_member provides resolve_interface Interfaces.get Interfaces.new lookup
    compile_items compile_function compiled compile_body start_function check_capability
    check_override_validity may_override check_sealed_collision sealed_by Registry.resolve_named
    Registry.get Registry.new check_attributes compile_stmts lower_stmt enter_stmt note_span
    strict_check stmt_span compile_return emit_debug emit_byte access_of access_from compile_while
    while_loop compile_if if_else compile_match arm_then arm_by match_arm is_wildcard_pattern
    compile_arms compile_opt fresh_label emit_label emit_jmp emit_cond_jump emit_global emit_named
    emit_imm emit_bytes emit_hash record_symbol compile_condition condition_by comparison_kind
    compile_comparison compile_expr_operand compile_assign assign_to assign_register assign_opcode
    le_bytes show_nat
counting_accepted = refl

-- The labels stand at the ends of the instructions before them, in the order of the code.
counting_labels :
    (compile_function small_host counting new).0.labels
    ≡ (lit "_while_1", 0)
      ∷ (lit "_else_3", 80)
      ∷ (lit "_endif_4", 99)
      ∷ (lit "_arm_6", 142)
      ∷ (lit "_endmatch_5", 161)
      ∷ (lit "_endwhile_2", 171)
      ∷ []
unfolding compile_ast compile_items_of used_names inline_decls compile_programs compile_program
    start_program check_implements check_claims check_interfaces check_interface check_resolved
    check_members check_member provides resolve_interface Interfaces.get Interfaces.new lookup
    compile_items compile_function compiled compile_body start_function check_capability
    check_override_validity may_override check_sealed_collision sealed_by Registry.resolve_named
    Registry.get Registry.new check_attributes compile_stmts lower_stmt enter_stmt note_span
    strict_check stmt_span compile_return emit_debug emit_byte access_of access_from compile_while
    while_loop compile_if if_else compile_match arm_then arm_by match_arm is_wildcard_pattern
    compile_arms compile_opt fresh_label emit_label emit_jmp emit_cond_jump emit_global emit_named
    emit_imm emit_bytes emit_hash record_symbol compile_condition condition_by comparison_kind
    compile_comparison compile_expr_operand compile_assign assign_to assign_register assign_opcode
    le_bytes show_nat
counting_labels = refl

compile_ast-AreSound_example : AreSound small_host counting_programs
compile_ast-AreSound_example =
    compile_ast-AreSound small_host counting_file counting_programs counting_accepted
      ((counting-AreSmall, tt), tt)

-- `return;`
abbrev returning : FunctionSig → FunctionDecl Bool
returning s = record { sig = s; body = more_stmts (return none) no_stmts }

-- `use demo; program P implements ISolve { function solve(x) { return; } function greet() override
-- { return; } }`
abbrev lawful : SourceFile Bool
lawful = record {
  items =
      TopLevel.use_ (lit "demo")
      ∷ TopLevel.program (record {
        name = lit "P";
        implements = lit "ISolve" ∷ [];
        body =
            ProgramItem.function
              (returning (record sig { name = lit "solve"; params = input ∷ [] }))
            ∷ ProgramItem.function
                (returning (record sig { name = lit "greet"; is_override = true }))
            ∷ [];
        span = here;
      })
      ∷ [];
}

abbrev returned : Text → List Text → Bool → CompiledFunction
returned name params is_override = record {
  name = name;
  params = params;
  bytecode = Op.return ∷ 0 ∷ [];
  labels = [];
  debug_lines = (record { offset = 0; opcode = Op.return; description = lit "return" }) ∷ [];
  is_override = is_override;
  access = Access.external;
  once = false;
}

abbrev lawful_programs : List CompiledProgram
lawful_programs =
    (record {
      name = lit "P";
      implements = lit "ISolve" ∷ [];
      functions = returned (lit "solve") (lit "x" ∷ []) false ∷ returned (lit "greet") [] true ∷ [];
      storage_fields = [];
      symbol_names = [];
      used_modules = lit "demo" ∷ [];
    })
    ∷ []

lawful_accepted : compile_ast small_host lawful ≡ inr lawful_programs
unfolding compile_ast compile_items_of used_names inline_decls compile_programs compile_program
    start_program check_implements check_claims check_interfaces check_interface check_resolved
    check_members check_member provides resolve_interface Interfaces.get Interfaces.new lookup
    compile_items compile_function compiled compile_body start_function check_capability
    check_override_validity may_override check_sealed_collision sealed_by Registry.resolve_named
    Registry.get Registry.new check_attributes compile_stmts lower_stmt enter_stmt note_span
    strict_check stmt_span compile_return emit_debug emit_byte access_of access_from
lawful_accepted = refl

compile_ast-IsLawful_example :
    All
      (IsLawfulItem small_host
        (used_names small_host lawful.items)
        (inline_decls small_host [] lawful.items))
      lawful.items
compile_ast-IsLawful_example =
    compile_ast-IsLawful small_host lawful lawful_programs lawful_accepted
