-- ===== src/Compiler/Contracts.antt =====
-- What the checks on declarations mean (src/compiler.rs: `check_implements`,
-- `check_override_validity`, `check_sealed_collision`).
use cubelang.Base.{
  ℕ, List, [], ◌∷◌, ◌++◌, Bool, true, false, Option, none, some, any, length, if◌then◌else◌, ◌≡◌,
  ◌≢◌, refl, sym, subst, ap, ◌∙◌, ◌⊎◌, inl, inr, All, arith, Bool-cases,
}
use cubelang.Base.Text.{Text}
use cubelang.Base.Dict.{Dict}
use cubelang.Base.Equal.{list_eq_iff, list_equal}
use cubelang.Syntax.Decl.{FunctionSig, InterfaceDecl, ProgramItem, ProgramDecl}
use cubelang.Syntax.Expr.{Span}
use cubelang.Vm.Registry
use cubelang.Vm.Registry.{ModuleFn}
use cubelang.Vm.State.{Host}
use cubelang.Compiler.State.{Compiler, Message}
use cubelang.Compiler.Emit.{Pass}
use cubelang.Compiler.Checks.{
  resolve_interface, provides, capability_error, interface_error, check_member, check_members,
  check_resolved, check_interface, check_interfaces, check_claims, check_implements,
}
use cubelang.Compiler.Context.{Context, context, Keeps}

module _ {F : Type 0} where
  -- The item is a function or constructor of this name and number of parameters.
  abbrev Is : Text × ℕ → ProgramItem F → Type 0
  Is (name, arity) (ProgramItem.function f) = (f.sig.name ≡ name) × (length f.sig.params ≡ arity)
  Is (name, arity) (ProgramItem.constructor f) = (f.sig.name ≡ name) × (length f.sig.params ≡ arity)
  Is member _ = ⊥

  abbrev Provides : List (ProgramItem F) → Text × ℕ → Type 0
  Provides [] m = ⊥
  Provides (i ∷ is) m = Is m i ⊎ Provides is m

  -- The name is an interface, and the program has every function that it requires.
  abbrev Implements : Dict Text InterfaceDecl → ProgramDecl F → Text → Type 0
  Implements inline prog iface =
      (required : List (Text × ℕ)) × (resolve_interface inline iface ≡ some required)
      × All (Provides prog.body) required

  -- A program claims at least one interface, and implements every one that it claims.
  abbrev pub KeepsClaims : Dict Text InterfaceDecl → ProgramDecl F → Type 0
  KeepsClaims inline prog = (prog.implements ≢ []) × All (Implements inline prog) prog.implements

-- A module in use exports the name as overridable.
abbrev pub Overridable : List Text → Text → Type 0
Overridable [] name = ⊥
Overridable (m ∷ ms) name =
    ((f : ModuleFn) × (Registry.get Registry.new m name ≡ some f) × (f.overridable ≡ true))
    ⊎ Overridable ms name

abbrev pub IsOpen : Option (Text × ModuleFn) → Type 0
IsOpen none = Unit
IsOpen (some (m, f)) = f.overridable ≡ true

-- An `override` has something to override; any other function hides no sealed export.
abbrev pub Respects : List Text → FunctionSig → Type 0
Respects used sig =
    if sig.is_override
    then Overridable used sig.name
    else IsOpen (Registry.resolve_named Registry.new used sig.name)

module _ (host : Host) where
  open host.floats use {F}

  -- No check has failed.
  abbrev pub IsClean : Compiler F → Type 0
  IsClean c = (c.interface_errors ≡ []) × (c.capability_errors ≡ [])

  pub Keeps-IsClean : (p : Pass host) (c : Compiler F) → Keeps host p → IsClean (p c) → IsClean c
  unfolding context
  Keeps-IsClean p c k (e, q) = (
    sym (ap (λ (x : Context host). x.2) (k c)) ∙ e,
    sym (ap (λ (x : Context host). x.3) (k c)) ∙ q,
  )

  append_one-ne_nil {ℓ} : {A : Type ℓ} (xs : List A) (x : A) → xs ++ x ∷ [] ≢ []
  append_one-ne_nil [] x e = cc
  append_one-ne_nil (y ∷ ys) x e = cc

  provides-Is : (m : Text × ℕ) (i : ProgramItem F) → provides host m i ≡ true → Is m i
  unfolding provides
  provides-Is (name, arity) (ProgramItem.function f) e = ground (arith, list_eq_iff f.sig.name name)
  provides-Is (name, arity) (ProgramItem.constructor f) e =
      ground (arith, list_eq_iff f.sig.name name)
  provides-Is m (ProgramItem.storage s) e = cc
  provides-Is m (ProgramItem.type_alias s) e = cc

  any-Provides :
      (m : Text × ℕ) (is : List (ProgramItem F)) → any (provides host m) is ≡ true → Provides is m
  any-Provides m [] e = cc
  any-Provides m (i ∷ is) e = elim (Bool-cases (provides host m i)) [
    | inl q ↦ inl (provides-Is m i q)
    | inr q ↦ inr (any-Provides m is (ground arith))
  ]

  -- A check that fails leaves an error.
  pub guard-IsClean :
      (b : Bool) (failed c : Compiler F)
      → ¬ IsClean failed
      → IsClean (if b then c else failed)
      → IsClean c × (b ≡ true)
  guard-IsClean true failed c n h = (h, refl)
  guard-IsClean false failed c n h = absurd (n h)

  interface_error-IsClean :
      (m : Message F) (span : Span) (c : Compiler F) → ¬ IsClean (interface_error host m span c)
  unfolding interface_error
  interface_error-IsClean m span c h = append_one-ne_nil _ _ h.0

  pub capability_error-IsClean :
      (m : Message F) (span : Span) (c : Compiler F) → ¬ IsClean (capability_error host m span c)
  unfolding capability_error
  capability_error-IsClean m span c h = append_one-ne_nil _ _ h.1

  member-IsClean :
      (prog : ProgramDecl F) (iface : Text) (m : Text × ℕ) (c : Compiler F)
      → IsClean (check_member host prog iface m c)
      → IsClean c × Provides prog.body m
  unfolding check_member
  member-IsClean prog iface m c h =
      let (h0, q) =
        guard-IsClean (any (provides host m) prog.body) _ c (interface_error-IsClean _ _ c) h in
      (h0, any-Provides m prog.body q)

  members-IsClean :
      (prog : ProgramDecl F) (iface : Text) (ms : List (Text × ℕ)) (c : Compiler F)
      → IsClean (check_members host prog iface ms c)
      → IsClean c × All (Provides prog.body) ms
  unfolding check_members
  members-IsClean prog iface [] c h = (h, tt)
  members-IsClean prog iface (m ∷ ms) c h =
      let (h1, ps) = members-IsClean prog iface ms (check_member host prog iface m c) h in
      let (h0, p) = member-IsClean prog iface m c h1 in (h0, (p, ps))

  resolved-IsClean :
      (o : Option (List (Text × ℕ))) (inline : Dict Text InterfaceDecl) (prog : ProgramDecl F)
      (iface : Text) (c : Compiler F)
      → resolve_interface inline iface ≡ o
      → IsClean (check_resolved host o prog iface c)
      → IsClean c × Implements inline prog iface
  unfolding check_resolved
  resolved-IsClean none inline prog iface c e h = absurd (interface_error-IsClean _ _ c h)
  resolved-IsClean (some ms) inline prog iface c e h =
      let (h0, ps) = members-IsClean prog iface ms c h in (h0, (ms, e, ps))

  -- The checks change neither the modules in use nor the interfaces of the file.
  abbrev pub scope : Compiler F → List Text × Dict Text InterfaceDecl
  scope c = (c.used_modules, c.inline_interfaces)

  abbrev pub SameScope : Pass host → Type 0
  SameScope p = (c : Compiler F) → scope (p c) ≡ scope c

  scope_member :
      (prog : ProgramDecl F) (iface : Text) (m : Text × ℕ)
      → SameScope (check_member host prog iface m)
  unfolding check_member interface_error
  scope_member prog iface m c = ground arith

  scope_members :
      (prog : ProgramDecl F) (iface : Text) (ms : List (Text × ℕ))
      → SameScope (check_members host prog iface ms)
  unfolding check_members
  scope_members prog iface [] c = refl
  scope_members prog iface (m ∷ ms) c =
      scope_members prog iface ms (check_member host prog iface m c) ∙ scope_member prog iface m c

  scope_resolved :
      (o : Option (List (Text × ℕ))) (prog : ProgramDecl F) (iface : Text)
      → SameScope (check_resolved host o prog iface)
  unfolding check_resolved interface_error
  scope_resolved none prog iface c = refl
  scope_resolved (some ms) prog iface c = scope_members prog iface ms c

  scope_interface :
      (prog : ProgramDecl F) (iface : Text) → SameScope (check_interface host prog iface)
  unfolding check_interface
  scope_interface prog iface c =
      scope_resolved (resolve_interface c.inline_interfaces iface) prog iface c

  scope_interfaces :
      (prog : ProgramDecl F) (is : List Text) → SameScope (check_interfaces host prog is)
  unfolding check_interfaces
  scope_interfaces prog [] c = refl
  scope_interfaces prog (i ∷ is) c =
      scope_interfaces prog is (check_interface host prog i c) ∙ scope_interface prog i c

  scope_claims : (prog : ProgramDecl F) (is : List Text) → SameScope (check_claims host prog is)
  unfolding check_claims interface_error
  scope_claims prog [] c = refl
  scope_claims prog (i ∷ is) c = scope_interfaces prog (i ∷ is) c

  pub scope_implements : (prog : ProgramDecl F) → SameScope (check_implements host prog)
  unfolding check_implements
  scope_implements prog c = scope_claims prog prog.implements c

  interfaces-IsClean :
      (prog : ProgramDecl F) (is : List Text) (c : Compiler F)
      → IsClean (check_interfaces host prog is c)
      → IsClean c × All (Implements c.inline_interfaces prog) is
  unfolding check_interfaces check_interface
  interfaces-IsClean prog [] c h = (h, tt)
  interfaces-IsClean prog (i ∷ is) c h =
      let (h1, ps) = interfaces-IsClean prog is (check_interface host prog i c) h in
      let same = ap (λ (x : List Text × Dict Text InterfaceDecl). x.1) (scope_interface prog i c) in
      let (h0, p) =
        resolved-IsClean (resolve_interface c.inline_interfaces i) c.inline_interfaces prog i c refl
          h1 in
      (h0, (p, subst (λ inline. All (Implements inline prog) is) same ps))

  claims-IsClean :
      (prog : ProgramDecl F) (is : List Text) (c : Compiler F)
      → IsClean (check_claims host prog is c)
      → IsClean c × (is ≢ []) × All (Implements c.inline_interfaces prog) is
  unfolding check_claims
  claims-IsClean prog [] c h = absurd (interface_error-IsClean _ _ c h)
  claims-IsClean prog (i ∷ is) c h =
      let (h0, ps) = interfaces-IsClean prog (i ∷ is) c h in (h0, (λ e. cc), ps)

  pub implements-IsClean :
      (prog : ProgramDecl F) (c : Compiler F)
      → IsClean (check_implements host prog c)
      → IsClean c × KeepsClaims c.inline_interfaces prog
  unfolding check_implements
  implements-IsClean prog c h =
      let (h0, ne, ps) = claims-IsClean prog prog.implements c h in (h0, (ne, ps))
