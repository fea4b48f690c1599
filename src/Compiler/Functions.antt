-- ===== src/Compiler/Functions.antt =====
-- A whole function's code (src/compiler.rs: `compile_function`).
use cubelang.Base.{
  List, [], ◌∷◌, ◌++◌, ◌≡◌, refl, sym, subst, ap, ◌∙◌, All, arith, ◌▷◌, Option, none, some,
}
use cubelang.Base.Text.{Text}
use cubelang.Vm.Registry.{ModuleFn}
use cubelang.Bytecode.Code.{Instr, code, IsInstr}
use cubelang.Syntax.Decl.{Permission, FunctionSig, FunctionDecl}
use cubelang.Compiler.State.{Compiler, strict_violation}
use cubelang.Compiler.Checks.{
  check_permission, check_permissions_from, check_permissions, check_override_validity, sealed_by,
  check_sealed_collision, capability_error,
}
use cubelang.Compiler.Programs.{
  start_function, check_capability, check_attributes, compiled, compile_body, compile_function,
}
use cubelang.Compiler.Limits.{AreSmall}
use cubelang.Compiler.Statements.{Writes-compile_stmts}
use cubelang.Compiler.Jumps.{Lands, Closed-Lands}
use cubelang.Vm.State.{Host}

module _ (host : Host) where
  open host use {hash, floats}
  open host.floats use {F}

  bytes_check_permission :
      (sig : FunctionSig) (p : Permission) (c : Compiler F)
      → (check_permission host sig p c).bytecode ≡ c.bytecode
  unfolding check_permission strict_violation
  bytes_check_permission sig p c = ground arith

  bytes_check_permissions :
      (sig : FunctionSig) (ps : List Permission) (c : Compiler F)
      → (check_permissions_from host sig ps c).bytecode ≡ c.bytecode
  unfolding check_permissions_from
  bytes_check_permissions sig [] c = refl
  bytes_check_permissions sig (p ∷ ps) c =
      bytes_check_permissions sig ps (check_permission host sig p c)
      ∙ bytes_check_permission sig p c

  bytes_check_attributes :
      (sig : FunctionSig) (c : Compiler F) → (check_attributes host sig c).bytecode ≡ c.bytecode
  unfolding check_attributes check_permissions
  bytes_check_attributes sig c = ground (arith, bytes_check_permissions sig sig.permissions c)

  bytes_sealed_by :
      (o : Option (Text × ModuleFn)) (sig : FunctionSig) (c : Compiler F)
      → (sealed_by host o sig c).bytecode ≡ c.bytecode
  unfolding sealed_by capability_error
  bytes_sealed_by none sig c = refl
  bytes_sealed_by (some (m, f)) sig c = ground arith

  bytes_check_sealed :
      (sig : FunctionSig) (c : Compiler F)
      → (check_sealed_collision host sig c).bytecode ≡ c.bytecode
  unfolding check_sealed_collision
  bytes_check_sealed sig c = bytes_sealed_by _ sig c

  bytes_check_override :
      (sig : FunctionSig) (c : Compiler F)
      → (check_override_validity host sig c).bytecode ≡ c.bytecode
  unfolding check_override_validity capability_error
  bytes_check_override sig c = ground arith

  bytes_check_capability :
      (sig : FunctionSig) (c : Compiler F) → (check_capability host sig c).bytecode ≡ c.bytecode
  unfolding check_capability
  bytes_check_capability sig c =
      ground (arith, bytes_check_override sig c, bytes_check_sealed sig c)

  bytes_start :
      (sig : FunctionSig) (c : Compiler F)
      → (c
          ▷ start_function host sig
          ▷ check_capability host sig
          ▷ check_attributes host sig).bytecode
        ≡ []
  unfolding start_function
  bytes_start sig c = simp (bytes_check_attributes, bytes_check_capability)

  -- The code of a function whose literals and operand counts fit is a list of well-formed
  -- instructions, and every JMP and COND of it finds its label in the map that the VM scans from
  -- the bytes, at the position of a LABEL instruction of the same key.
  pub compile_function-Lands :
      (f : FunctionDecl F) (c : Compiler F)
      → AreSmall host f.body
      → (is : List (Instr F)) × ((compile_function host f c).0.bytecode ≡ code floats is)
        × All (IsInstr floats) is
        × All (Lands host ((compile_function host f c).0.bytecode)) is
  unfolding compile_function compiled compile_body
  compile_function-Lands f c h =
      let c1 : Compiler F =
        c ▷ start_function host f.sig ▷ check_capability host f.sig ▷ check_attributes host f.sig in
      let (is, (e, ok), closed) = Writes-compile_stmts host f.body h c1 in
      let e1 = e ∙ ap (λ bs. bs ++ code floats is) (bytes_start f.sig c) in
      (is, e1, ok, subst (λ bs. All (Lands host bs) is) (sym e1) (Closed-Lands host is ok closed))
