-- ===== src/Compiler/Accepted.antt =====
-- What a file must be for the compiler to accept it (src/compiler.rs: `compile_ast`).
use cubelang.Base.{List, [], ◌∷◌, ◌≡◌, refl, subst, ap, ◌∙◌, ◌⊎◌, inr, All}
use cubelang.Base.Text.{Text}
use cubelang.Base.Dict.{Dict}
use cubelang.Program.{CompiledProgram}
use cubelang.Syntax.Decl.{
  FunctionDecl, InterfaceDecl, ProgramItem, ProgramDecl, TopLevel, SourceFile,
}
use cubelang.Vm.State.{Host}
use cubelang.Compiler.State.{Compiler, ParseError}
use cubelang.Compiler.Checks.{check_implements}
use cubelang.Compiler.Programs.{
  compile_body, compile_function, Parts, compile_items, start_program, compile_program, used_names,
  inline_decls, compile_programs, compile_items_of, first_of, compile_ast,
}
use cubelang.Compiler.Respected.{body-IsClean, scope_body}
use cubelang.Compiler.Contracts.{
  KeepsClaims, Respects, IsClean, SameScope, scope_implements, implements-IsClean,
}

module _ (host : Host) where
  open host.floats use {F}

  -- A function of a program respects the modules in use; other items declare none.
  abbrev pub ItemRespects : List Text → ProgramItem F → Type 0
  ItemRespects used (ProgramItem.function f) = Respects used f.sig
  ItemRespects used (ProgramItem.constructor f) = Respects used f.sig
  ItemRespects used _ = Unit

  scope_items :
      (items : List (ProgramItem F)) (parts : Parts host)
      → SameScope host (λ c. (compile_items host items parts c).1)
  unfolding compile_items compile_function
  scope_items [] parts c = refl
  scope_items (ProgramItem.storage s ∷ items) parts c = scope_items items _ c
  scope_items (ProgramItem.type_alias t ∷ items) parts c = scope_items items parts c
  scope_items (ProgramItem.function f ∷ items) parts c =
      scope_items items _ (compile_body host f c) ∙ scope_body host f c
  scope_items (ProgramItem.constructor f ∷ items) parts c =
      scope_items items _ (compile_body host f c) ∙ scope_body host f c

  -- After a function's body, the rest is clean, and so is the body.
  body_then :
      (f : FunctionDecl F) (items : List (ProgramItem F)) (c : Compiler F)
      → IsClean host (compile_body host f c)
        × All (ItemRespects (compile_body host f c).used_modules) items
      → IsClean host c × Respects c.used_modules f.sig × All (ItemRespects c.used_modules) items
  body_then f items c (h, rs) =
      let (h0, r) = body-IsClean host f c h in
      let same = ap (λ (x : List Text × Dict Text InterfaceDecl). x.0) (scope_body host f c) in
      (h0, r, subst (λ used. All (ItemRespects used) items) same rs)

  items-IsClean :
      (items : List (ProgramItem F)) (parts : Parts host) (c : Compiler F)
      → IsClean host (compile_items host items parts c).1
      → IsClean host c × All (ItemRespects c.used_modules) items
  unfolding compile_items compile_function
  items-IsClean [] parts c h = (h, tt)
  items-IsClean (ProgramItem.storage s ∷ items) parts c h =
      let (h0, rs) = items-IsClean items _ c h in (h0, (tt, rs))
  items-IsClean (ProgramItem.type_alias t ∷ items) parts c h =
      let (h0, rs) = items-IsClean items parts c h in (h0, (tt, rs))
  items-IsClean (ProgramItem.function f ∷ items) parts c h =
      let (h0, r, rs) = body_then f items c (items-IsClean items _ (compile_body host f c) h) in
      (h0, (r, rs))
  items-IsClean (ProgramItem.constructor f ∷ items) parts c h =
      let (h0, r, rs) = body_then f items c (items-IsClean items _ (compile_body host f c) h) in
      (h0, (r, rs))

  -- A program keeps its claims, and its functions respect the modules in use.
  abbrev pub IsLawful : List Text → Dict Text InterfaceDecl → ProgramDecl F → Type 0
  IsLawful used inline prog = KeepsClaims inline prog × All (ItemRespects used) prog.body

  abbrev pub IsLawfulItem : List Text → Dict Text InterfaceDecl → TopLevel F → Type 0
  IsLawfulItem used inline (TopLevel.program p) = IsLawful used inline p
  IsLawfulItem used inline _ = Unit

  scope_program : (p : ProgramDecl F) → SameScope host (λ c. (compile_program host p c).1)
  unfolding compile_program start_program
  scope_program p c =
      let c0 : Compiler F = start_program host p c in
      scope_items p.body ([], []) (check_implements host p c0) ∙ scope_implements host p c0

  program-IsClean :
      (p : ProgramDecl F) (c : Compiler F)
      → IsClean host (compile_program host p c).1
      → IsClean host c × IsLawful c.used_modules c.inline_interfaces p
  unfolding compile_program start_program
  program-IsClean p c h =
      let c0 : Compiler F = start_program host p c in
      let (h1, rs) = items-IsClean p.body ([], []) (check_implements host p c0) h in
      let (h0, ks) = implements-IsClean host p c0 h1 in
      let same =
        ap (λ (x : List Text × Dict Text InterfaceDecl). x.0) (scope_implements host p c0) in
      (h0, (ks, subst (λ used. All (ItemRespects used) p.body) same rs))

  programs-IsClean :
      (items : List (TopLevel F)) (c : Compiler F)
      → IsClean host (compile_programs host items c).1
      → IsClean host c × All (IsLawfulItem c.used_modules c.inline_interfaces) items
  unfolding compile_programs
  programs-IsClean [] c h = (h, tt)
  programs-IsClean (TopLevel.program p ∷ items) c h =
      let (h1, rs) = programs-IsClean items (compile_program host p c).1 h in
      let (h0, r) = program-IsClean p c h1 in
      (
        h0,
        (
          r,
          subst (λ (x : List Text × Dict Text InterfaceDecl). All (IsLawfulItem x.0 x.1) items)
              (scope_program p c) rs,
        ),
      )
  programs-IsClean (item ∷ items) c h = let (h0, rs) = programs-IsClean items c h in (h0, (tt, rs))

  pub first_of-inr :
      (es : List (ParseError F)) (rest : ParseError F ⊎ List CompiledProgram)
      (progs : List CompiledProgram)
      → first_of host es rest ≡ inr progs
      → (es ≡ []) × (rest ≡ inr progs)
  first_of-inr [] rest progs e = (refl, e)
  first_of-inr (x ∷ es) rest progs e = cc

  -- A file that the compiler accepts keeps its contracts: each of its programs claims an interface,
  -- each claimed name is a standard interface or one of the file, each member it requires is there
  -- with its number of parameters, each `override` names an overridable export of a module in use,
  -- and no other function has the name of a sealed one.
  pub compile_ast-IsLawful :
      (source : SourceFile F) (progs : List CompiledProgram)
      → compile_ast host source ≡ inr progs
      → All
          (IsLawfulItem (used_names host source.items) (inline_decls host [] source.items))
          source.items
  unfolding compile_ast compile_items_of
  compile_ast-IsLawful source progs e =
      let (caps, rest) = first_of-inr _ _ progs e in
      let (ifaces, _) = first_of-inr _ _ progs rest in
      (programs-IsClean source.items _ (ifaces, caps)).1
