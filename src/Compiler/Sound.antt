-- ===== src/Compiler/Sound.antt =====
-- The code of a whole file (src/compiler.rs: `compile_ast`).
use cubelang.Base.{List, [], ◌∷◌, ◌≡◌, subst, ◌⊎◌, inr, All, All-append}
use cubelang.Bytecode.Code.{Instr, code, IsInstr}
use cubelang.Program.{CompiledFunction, CompiledProgram}
use cubelang.Syntax.Decl.{ProgramItem, TopLevel, SourceFile}
use cubelang.Vm.State.{Host}
use cubelang.Compiler.State.{Compiler, ParseError, new}
use cubelang.Compiler.Limits.{AreSmall}
use cubelang.Compiler.Checks.{check_implements}
use cubelang.Compiler.Programs.{
  compile_function, Parts, compile_items, start_program, compile_program, used_names, inline_decls,
  compile_programs, compile_items_of, compile_ast,
}
use cubelang.Compiler.Jumps.{Lands}
use cubelang.Compiler.Functions.{compile_function-Lands}
use cubelang.Compiler.Accepted.{first_of-inr}

module _ (host : Host) where
  open host use {floats}
  open host.floats use {F}

  -- Well-formed instructions, whose jumps find their labels in the VM.
  abbrev pub IsSound : CompiledFunction → Type 0
  IsSound g =
      (is : List (Instr F)) × (g.bytecode ≡ code floats is)
      × All (IsInstr floats) is
      × All (Lands host g.bytecode) is

  abbrev pub AreSound : List CompiledProgram → Type 0
  AreSound progs = All (λ (p : CompiledProgram). All IsSound p.functions) progs

  abbrev pub ItemIsSmall : ProgramItem F → Type 0
  ItemIsSmall (ProgramItem.function f) = AreSmall host f.body
  ItemIsSmall (ProgramItem.constructor f) = AreSmall host f.body
  ItemIsSmall _ = Unit

  abbrev pub IsSmallFile : TopLevel F → Type 0
  IsSmallFile (TopLevel.program p) = All ItemIsSmall p.body
  IsSmallFile _ = Unit

  compile_items-IsSound :
      (items : List (ProgramItem F)) (parts : Parts host) (c : Compiler F)
      → All ItemIsSmall items
      → All IsSound parts.0
      → All IsSound (compile_items host items parts c).0.0
  unfolding compile_items
  compile_items-IsSound [] parts c small sound = sound
  compile_items-IsSound (ProgramItem.storage s ∷ items) parts c small sound =
      compile_items-IsSound items _ c small.1 sound
  compile_items-IsSound (ProgramItem.type_alias t ∷ items) parts c small sound =
      compile_items-IsSound items parts c small.1 sound
  compile_items-IsSound (ProgramItem.function f ∷ items) parts c small sound =
      compile_items-IsSound items _ (compile_function host f c).1 small.1
        (All-append IsSound parts.0 _ sound (compile_function-Lands host f c small.0, tt))
  compile_items-IsSound (ProgramItem.constructor f ∷ items) parts c small sound =
      compile_items-IsSound items _ (compile_function host f c).1 small.1
        (All-append IsSound parts.0 _ sound (compile_function-Lands host f c small.0, tt))

  compile_programs-AreSound :
      (items : List (TopLevel F)) (c : Compiler F)
      → All IsSmallFile items
      → AreSound (compile_programs host items c).0
  unfolding compile_programs compile_program
  compile_programs-AreSound [] c small = tt
  compile_programs-AreSound (TopLevel.program p ∷ items) c small = (
    compile_items-IsSound p.body ([], []) (check_implements host p (start_program host p c)) small.0
        tt,
    compile_programs-AreSound items (compile_program host p c).1 small.1,
  )
  compile_programs-AreSound (item ∷ items) c small = compile_programs-AreSound items c small.1

  inr-inj :
      (ps qs : List CompiledProgram)
      → ◌≡◌ {A = ParseError F ⊎ List CompiledProgram} (inr ps) (inr qs)
      → ps ≡ qs
  inr-inj ps qs e = cc

  -- In every function of every program that `compile_ast` returns for a file whose integer literals
  -- are `i64`s, whose lists of operands are shorter than 254, and whose `asm` blocks hold no SKIP
  -- and no jump, the code is a list of well-formed instructions, and every JMP and COND of it finds
  -- its label in the map that the VM scans from the bytes, at the position of a LABEL instruction of
  -- the same key.
  pub compile_ast-AreSound :
      (source : SourceFile F) (progs : List CompiledProgram)
      → compile_ast host source ≡ inr progs
      → All IsSmallFile source.items
      → AreSound progs
  unfolding compile_ast compile_items_of
  compile_ast-AreSound source progs e small =
      let start : Compiler F = record new {
        used_modules = used_names host source.items;
        inline_interfaces = inline_decls host [] source.items;
      } in
      let c : Compiler F = (compile_programs host source.items start).1 in
      let (_, e1) = first_of-inr host c.capability_errors _ progs e in
      let (_, e2) = first_of-inr host c.interface_errors _ progs e1 in
      let (_, e3) = first_of-inr host c.asm_errors _ progs e2 in
      let (_, e4) = first_of-inr host c.operand_errors _ progs e3 in
      subst AreSound (inr-inj _ progs e4) (compile_programs-AreSound source.items start small)
