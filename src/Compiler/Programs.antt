-- ===== src/Compiler/Programs.antt =====
-- Functions, programs and whole files (src/compiler.rs: `compile_function`, `compile_program`,
-- `compile`, `compile_ast`, `compile_ast_strict`).
use cubelang.Base.{List, [], ◌∷◌, ◌++◌, none, map, if◌then◌else◌, ◌▷◌, ◌⊎◌, inl, inr}
use cubelang.Base.Text.{Text}
use cubelang.Base.Dict.{Dict, insert}
use cubelang.Base.Equal.{list_equal}
use cubelang.Program.{CompiledFunction, CompiledProgram}
use cubelang.Syntax.Expr.{Param}
use cubelang.Syntax.Decl.{
  FunctionSig, FunctionDecl, InterfaceDecl, StorageField, StorageBlock, ProgramItem, ProgramDecl,
  TopLevel, SourceFile,
}
use cubelang.Vm.State.{Host}
use cubelang.Compiler.State.{Compiler, ParseError, StrictError, new, new_strict}
use cubelang.Compiler.Emit.{Pass}
use cubelang.Compiler.Lower.{compile_stmts}
use cubelang.Compiler.Checks.{
  access_of, check_permissions, check_override_validity, check_sealed_collision, check_implements,
}

module _ (host : Host) where
  open host.floats use {F}

  -- The buffers of one function are cleared; the label counter runs on.
  unfoldable pub start_function : FunctionSig → Pass host
  start_function sig c = record c {
    bytecode = [];
    labels = [];
    debug_lines = [];
    current_function = sig.name;
    current_span = none;
  }

  unfoldable pub check_capability : FunctionSig → Pass host
  check_capability sig =
      if sig.is_override then check_override_validity host sig else check_sealed_collision host sig

  unfoldable pub check_attributes : FunctionSig → Pass host
  check_attributes sig c = if c.strict then check_permissions host sig c else c

  unfoldable pub compiled : FunctionSig → Compiler F → CompiledFunction
  compiled sig c = record {
    name = sig.name;
    params = map (λ (p : Param). p.name) sig.params;
    bytecode = c.bytecode;
    labels = c.labels;
    debug_lines = c.debug_lines;
    is_override = sig.is_override;
    access = (access_of sig).0;
    once = (access_of sig).1;
  }

  -- The state in which the body's code ends.
  unfoldable pub compile_body : FunctionDecl F → Pass host
  compile_body f c =
      c
      ▷ start_function f.sig
      ▷ check_capability f.sig
      ▷ check_attributes f.sig
      ▷ compile_stmts host f.body

  unfoldable pub compile_function : FunctionDecl F → Compiler F → CompiledFunction × Compiler F
  compile_function f c = let c1 = compile_body f c in (compiled f.sig c1, c1)

  -- What the items of a program give: its functions and the names of its storage fields.
  abbrev pub Parts : Type 0
  Parts = List CompiledFunction × List Text

  abbrev pub field_names : StorageBlock F → List Text
  field_names s = map (λ (x : StorageField F). x.name) s.fields

  unfoldable pub compile_items : List (ProgramItem F) → Parts → Compiler F → Parts × Compiler F
  compile_items [] parts c = (parts, c)
  compile_items (ProgramItem.storage s ∷ items) (fs, names) c =
      compile_items items (fs, names ++ field_names s) c
  compile_items (ProgramItem.function f ∷ items) (fs, names) c =
      let (g, c1) = compile_function f c in compile_items items (fs ++ g ∷ [], names) c1
  compile_items (ProgramItem.constructor f ∷ items) (fs, names) c =
      let (g, c1) = compile_function f c in compile_items items (fs ++ g ∷ [], names) c1
  compile_items (ProgramItem.type_alias t ∷ items) parts c = compile_items items parts c

  unfoldable pub start_program : ProgramDecl F → Pass host
  start_program prog c = record c { current_program = prog.name; symbol_names = [] }

  unfoldable pub compile_program : ProgramDecl F → Compiler F → CompiledProgram × Compiler F
  compile_program prog c =
      let c1 = c ▷ start_program prog ▷ check_implements host prog in
      let ((fs, names), c2) = compile_items prog.body ([], []) c1 in
      (
        record {
          name = prog.name;
          implements = prog.implements;
          functions = fs;
          storage_fields = names;
          symbol_names = c2.symbol_names;
          used_modules = c2.used_modules;
        },
        record c2 { symbol_names = [] },
      )

  unfoldable pub used_names : List (TopLevel F) → List Text
  used_names [] = []
  used_names (TopLevel.use_ name ∷ items) = name ∷ used_names items
  used_names (_ ∷ items) = used_names items

  -- A later `interface` of the same name replaces an earlier one.
  unfoldable pub inline_decls :
      Dict Text InterfaceDecl → List (TopLevel F) → Dict Text InterfaceDecl
  inline_decls found [] = found
  inline_decls found (TopLevel.interface decl ∷ items) =
      inline_decls (insert decl.name decl found) items
  inline_decls found (_ ∷ items) = inline_decls found items

  unfoldable pub compile_programs :
      List (TopLevel F) → Compiler F → List CompiledProgram × Compiler F
  compile_programs [] c = ([], c)
  compile_programs (TopLevel.program p ∷ items) c =
      let (prog, c1) = compile_program p c in
      let (progs, c2) = compile_programs items c1 in (prog ∷ progs, c2)
  compile_programs (_ ∷ items) c = compile_programs items c

  unfoldable pub compile_items_of : SourceFile F → Compiler F → List CompiledProgram × Compiler F
  compile_items_of source c = compile_programs source.items (record c {
    used_modules = used_names source.items;
    inline_interfaces = inline_decls [] source.items;
  })

  -- The first error of the four lists in their order, or the programs.
  abbrev pub first_of :
      List (ParseError F)
      → ParseError F ⊎ List CompiledProgram
      → ParseError F ⊎ List CompiledProgram
  first_of [] rest = rest
  first_of (e ∷ es) rest = inl e

  unfoldable pub compile_ast : SourceFile F → ParseError F ⊎ List CompiledProgram
  compile_ast source =
      let (progs, c) = compile_items_of source new in
      first_of c.capability_errors (
        first_of c.interface_errors (first_of c.asm_errors (first_of c.operand_errors (inr progs))))

  -- All errors, those that are always checked before the strict ones.
  abbrev pub AllErrors : Type 0
  AllErrors = List (ParseError F) × List (StrictError F)

  abbrev pub unless : AllErrors → List CompiledProgram → AllErrors ⊎ List CompiledProgram
  unless ([], []) progs = inr progs
  unless errors progs = inl errors

  unfoldable pub compile_ast_strict : SourceFile F → AllErrors ⊎ List CompiledProgram
  compile_ast_strict source =
      let (progs, c) = compile_items_of source new_strict in
      unless
        (
          c.capability_errors ++ (c.interface_errors ++ (c.asm_errors ++ c.operand_errors)),
          c.strict_errors,
        )
        progs
