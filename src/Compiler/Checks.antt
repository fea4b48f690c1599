-- ===== src/Compiler/Checks.antt =====
-- What a declaration claims: overrides, sealed names, attributes and interfaces (src/compiler.rs:
-- `access_of`, `check_permissions`, `check_override_validity`, `check_sealed_collision`,
-- `check_implements`).
use cubelang.Base.{
  ℕ, ◌==◌, List, [], ◌∷◌, ◌++◌, Bool, true, false, not, ◌&&◌, Option, none, some, any, length, map,
  if◌then◌else◌,
}
use cubelang.Base.Text.{Text}
use cubelang.Base.Dict.{Dict, lookup}
use cubelang.Base.Equal.{list_equal, list_eq}
use cubelang.Program.{Access}
use cubelang.Syntax.Expr.{Span}
use cubelang.Syntax.Decl.{
  Permission, Modifier, FunctionSig, InterfaceMember, InterfaceDecl, ProgramItem, ProgramDecl,
}
use cubelang.Interfaces
use cubelang.Interfaces.{InterfaceFn}
use cubelang.Vm.Registry
use cubelang.Vm.Registry.{ModuleFn}
use cubelang.Vm.State.{Host}
use cubelang.Compiler.State.{
  Message, no_implements, unknown_interface, missing_member, invalid_override, sealed_collision,
  attribute, strict_violation,
}
use cubelang.Compiler.Emit.{Pass}

-- The last access attribute and whether `@once` stands among them.
unfoldable pub access_from : Access × Bool → List Permission → Access × Bool
access_from found [] = found
access_from (access, once) (Permission.external ∷ ps) = access_from (Access.external, once) ps
access_from (access, once) (Permission.internal ∷ ps) = access_from (Access.internal, once) ps
access_from (access, once) (Permission.system ∷ ps) = access_from (Access.system, once) ps
access_from (access, once) (Permission.once ∷ ps) = access_from (access, true) ps
access_from found (p ∷ ps) = access_from found ps

unfoldable pub access_of : FunctionSig → Access × Bool
access_of sig = access_from (Access.external, false) sig.permissions

unfoldable pub is_enforced : Permission → Bool
is_enforced Permission.external = true
is_enforced Permission.internal = true
is_enforced Permission.system = true
is_enforced Permission.once = true
is_enforced _ = false

abbrev pub is_abstract : Modifier → Bool
is_abstract Modifier.abstract = true
is_abstract _ = false

abbrev pub is_optional : Modifier → Bool
is_optional Modifier.optional = true
is_optional _ = false

-- The required members of an `interface` of the file: its abstract functions, save optional ones.
unfoldable pub required_members : List InterfaceMember → List (Text × ℕ)
required_members [] = []
required_members (InterfaceMember.type_decl name span ∷ ms) = required_members ms
required_members (InterfaceMember.function sig ∷ ms) =
    if any is_abstract sig.modifiers && not (any is_optional sig.modifiers)
    then (sig.name, length sig.params) ∷ required_members ms
    else required_members ms

-- The standard interface of the name, or the file's own.
unfoldable pub resolve_interface : Dict Text InterfaceDecl → Text → Option (List (Text × ℕ))
resolve_interface inline name = elim (Interfaces.get Interfaces.new name) [
  | some members ↦ some (map (λ (m : InterfaceFn). (m.name, m.arity)) members)
  | none ↦ elim (lookup name inline) [
    | some decl ↦ some (required_members decl.members)
    | none ↦ none
  ]
]

-- A module in use lets the name be overridden.
unfoldable pub may_override : List Text → Text → Bool
may_override used name =
    any (λ m. elim (Registry.get Registry.new m name) [ some f ↦ f.overridable | none ↦ false ])
      used

module _ (host : Host) where
  open host.floats use {F}

  unfoldable pub provides : Text × ℕ → ProgramItem F → Bool
  provides (name, arity) (ProgramItem.function f) =
      list_eq f.sig.name name && (length f.sig.params == arity)
  provides (name, arity) (ProgramItem.constructor f) =
      list_eq f.sig.name name && (length f.sig.params == arity)
  provides member _ = false

  unfoldable pub check_permission : FunctionSig → Permission → Pass host
  check_permission sig p c =
      if is_enforced p then c else strict_violation (attribute p sig.name) (some sig.span.line) c

  unfoldable pub check_permissions_from : FunctionSig → List Permission → Pass host
  check_permissions_from sig [] c = c
  check_permissions_from sig (p ∷ ps) c = check_permissions_from sig ps (check_permission sig p c)

  unfoldable pub check_permissions : FunctionSig → Pass host
  check_permissions sig = check_permissions_from sig sig.permissions

  unfoldable pub capability_error : Message F → Span → Pass host
  capability_error message span c = record c {
    capability_errors = c.capability_errors ++ (record { message = message; span = span }) ∷ [];
  }

  unfoldable pub check_override_validity : FunctionSig → Pass host
  check_override_validity sig c =
      if may_override c.used_modules sig.name
      then c
      else capability_error (invalid_override sig.name c.used_modules) sig.span c

  unfoldable pub sealed_by : Option (Text × ModuleFn) → FunctionSig → Pass host
  sealed_by none sig = λ c. c
  sealed_by (some (module_name, entry)) sig = λ c.
      if entry.overridable
      then c
      else capability_error (sealed_collision sig.name module_name) sig.span c

  unfoldable pub check_sealed_collision : FunctionSig → Pass host
  check_sealed_collision sig c =
      sealed_by (Registry.resolve_named Registry.new c.used_modules sig.name) sig c

  unfoldable pub interface_error : Message F → Span → Pass host
  interface_error message span c = record c {
    interface_errors = c.interface_errors ++ (record { message = message; span = span }) ∷ [];
  }

  unfoldable pub check_member : ProgramDecl F → Text → Text × ℕ → Pass host
  check_member prog iface (name, arity) c =
      if any (provides (name, arity)) prog.body
      then c
      else interface_error (missing_member prog.name iface name arity) prog.span c

  unfoldable pub check_members : ProgramDecl F → Text → List (Text × ℕ) → Pass host
  check_members prog iface [] c = c
  check_members prog iface (m ∷ required) c =
      check_members prog iface required (check_member prog iface m c)

  unfoldable pub check_resolved : Option (List (Text × ℕ)) → ProgramDecl F → Text → Pass host
  check_resolved none prog iface = interface_error (unknown_interface prog.name iface) prog.span
  check_resolved (some required) prog iface = check_members prog iface required

  unfoldable pub check_interface : ProgramDecl F → Text → Pass host
  check_interface prog iface c =
      check_resolved (resolve_interface c.inline_interfaces iface) prog iface c

  unfoldable pub check_interfaces : ProgramDecl F → List Text → Pass host
  check_interfaces prog [] c = c
  check_interfaces prog (iface ∷ ifaces) c =
      check_interfaces prog ifaces (check_interface prog iface c)

  unfoldable pub check_claims : ProgramDecl F → List Text → Pass host
  check_claims prog [] c = interface_error (no_implements prog.name) prog.span c
  check_claims prog (iface ∷ ifaces) c = check_interfaces prog (iface ∷ ifaces) c

  unfoldable pub check_implements : ProgramDecl F → Pass host
  check_implements prog = check_claims prog prog.implements
