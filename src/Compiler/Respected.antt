-- ===== src/Compiler/Respected.antt =====
-- What a function must be for the checks on its declaration to pass (src/compiler.rs:
-- `compile_function`).
use cubelang.Base.{
  List, [], ◌∷◌, Bool, true, false, Option, none, some, ◌||◌, if◌then◌else◌, ◌≡◌, refl, ap, ◌∙◌,
  ◌⊎◌, inl, inr, arith, ◌▷◌,
}
use cubelang.Base.Text.{Text}
use cubelang.Syntax.Decl.{Permission, FunctionSig, FunctionDecl}
use cubelang.Vm.Registry
use cubelang.Vm.Registry.{ModuleFn}
use cubelang.Vm.State.{Host}
use cubelang.Compiler.State.{Compiler, strict_violation}
use cubelang.Compiler.Emit.{Pass}
use cubelang.Compiler.Checks.{
  may_override, capability_error, check_override_validity, sealed_by, check_sealed_collision,
  check_permission, check_permissions_from, check_permissions,
}
use cubelang.Compiler.Lower.{compile_stmts}
use cubelang.Compiler.Programs.{start_function, check_capability, check_attributes, compile_body}
use cubelang.Compiler.Context.{Context, context, Keeps}
use cubelang.Compiler.KeptFlow.{Keeps-stmts}
use cubelang.Compiler.Contracts.{
  Overridable, IsOpen, Respects, IsClean, Keeps-IsClean, guard-IsClean, capability_error-IsClean,
  SameScope,
}

exported_overridable :
    (o : Option ModuleFn)
    → elim o [ some f ↦ f.overridable | none ↦ false ] ≡ true
    → (f : ModuleFn) × (o ≡ some f) × (f.overridable ≡ true)
exported_overridable none e = cc
exported_overridable (some f) e = (f, refl, e)

or_cases : (a b : Bool) → (a || b) ≡ true → (a ≡ true) ⊎ (b ≡ true)
or_cases true b e = inl refl
or_cases false b e = inr e

may_override-Overridable :
    (used : List Text) (name : Text) → may_override used name ≡ true → Overridable used name
unfolding may_override
may_override-Overridable [] name e = cc
may_override-Overridable (m ∷ ms) name e = elim (or_cases _ _ e) [
  | inl q ↦ inl (exported_overridable _ q)
  | inr q ↦ inr (may_override-Overridable ms name q)
]

module _ (host : Host) where
  open host.floats use {F}

  override-IsClean :
      (sig : FunctionSig) (c : Compiler F)
      → IsClean host (check_override_validity host sig c)
      → IsClean host c × Overridable c.used_modules sig.name
  unfolding check_override_validity
  override-IsClean sig c h =
      let (h0, q) =
        guard-IsClean host (may_override c.used_modules sig.name) _ c
          (capability_error-IsClean host _ _ c) h in
      (h0, may_override-Overridable c.used_modules sig.name q)

  sealed-IsClean :
      (o : Option (Text × ModuleFn)) (sig : FunctionSig) (c : Compiler F)
      → IsClean host (sealed_by host o sig c)
      → IsClean host c × IsOpen o
  unfolding sealed_by
  sealed-IsClean none sig c h = (h, tt)
  sealed-IsClean (some (m, f)) sig c h =
      guard-IsClean host f.overridable _ c (capability_error-IsClean host _ _ c) h

  scope_override : (sig : FunctionSig) → SameScope host (check_override_validity host sig)
  unfolding check_override_validity capability_error
  scope_override sig c = ground arith

  scope_sealed :
      (o : Option (Text × ModuleFn)) (sig : FunctionSig) → SameScope host (sealed_by host o sig)
  unfolding sealed_by capability_error
  scope_sealed none sig c = refl
  scope_sealed (some (m, f)) sig c = ground arith

  abbrev capability_by : Bool → FunctionSig → Pass host
  capability_by b sig =
      if b then check_override_validity host sig else check_sealed_collision host sig

  scope_by : (b : Bool) (sig : FunctionSig) → SameScope host (capability_by b sig)
  unfolding check_sealed_collision
  scope_by true sig c = scope_override sig c
  scope_by false sig c = scope_sealed _ sig c

  by-IsClean :
      (b : Bool) (sig : FunctionSig) (c : Compiler F)
      → IsClean host (capability_by b sig c)
      → IsClean host c
        × (if b
            then Overridable c.used_modules sig.name
            else IsOpen (Registry.resolve_named Registry.new c.used_modules sig.name))
  unfolding check_sealed_collision
  by-IsClean true sig c h = override-IsClean sig c h
  by-IsClean false sig c h = sealed-IsClean _ sig c h

  Keeps-permission : (sig : FunctionSig) (p : Permission) → Keeps host (check_permission host sig p)
  unfolding check_permission strict_violation context
  Keeps-permission sig p c = ground arith

  Keeps-permissions :
      (sig : FunctionSig) (ps : List Permission) → Keeps host (check_permissions_from host sig ps)
  unfolding check_permissions_from
  Keeps-permissions sig [] c = refl
  Keeps-permissions sig (p ∷ ps) c =
      Keeps-permissions sig ps (check_permission host sig p c) ∙ Keeps-permission sig p c

  Keeps-attributes : (sig : FunctionSig) → Keeps host (check_attributes host sig)
  unfolding check_attributes check_permissions
  Keeps-attributes sig c = ground (arith, Keeps-permissions sig sig.permissions c)

  Keeps-rest :
      (f : FunctionDecl F)
      → Keeps host (λ c. c ▷ check_attributes host f.sig ▷ compile_stmts host f.body)
  Keeps-rest f c =
      Keeps-stmts host f.body (check_attributes host f.sig c) ∙ Keeps-attributes f.sig c

  Keeps-SameScope : (p : Pass host) → Keeps host p → SameScope host p
  unfolding context
  Keeps-SameScope p k c = ap (λ (x : Context host). (x.0, x.1)) (k c)

  pub body-IsClean :
      (f : FunctionDecl F) (c : Compiler F)
      → IsClean host (compile_body host f c)
      → IsClean host c × Respects c.used_modules f.sig
  unfolding compile_body start_function check_capability
  body-IsClean f c h =
      let c0 : Compiler F = start_function host f.sig c in
      by-IsClean f.sig.is_override f.sig c0 (
        Keeps-IsClean host (λ c. c ▷ check_attributes host f.sig ▷ compile_stmts host f.body)
          (capability_by f.sig.is_override f.sig c0) (Keeps-rest f) h)

  pub scope_body : (f : FunctionDecl F) → SameScope host (compile_body host f)
  unfolding compile_body start_function check_capability
  scope_body f c =
      let c0 : Compiler F = start_function host f.sig c in
      Keeps-SameScope _ (Keeps-rest f) (capability_by f.sig.is_override f.sig c0)
      ∙ scope_by f.sig.is_override f.sig c0
