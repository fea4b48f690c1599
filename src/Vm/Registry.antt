-- ===== src/Vm/Registry.antt =====
-- The registry of native modules (src/vm/registry.rs: `ModuleRegistry`). A native function is named
-- here; what it does is in the machine.
pub mod Access
use cubelang.Base.{List, [], ◌∷◌, ◌++◌, Bool, true, false, Option, none, some, ◌≡◌}
use cubelang.Base.Text.{Text, lit}
use cubelang.Base.Dict.{Dict, lookup}
use cubelang.Base.Equal.{list_equal}

pub data NativeFn : Type 0 where
  demo_greet demo_sealed vsa_recover : NativeFn

pub record ModuleFn : Type 0 where
  pub overridable : Bool
  pub call : NativeFn

abbrev pub Module : Type 0
Module = Dict Text ModuleFn

abbrev pub demo_module : Module
demo_module =
    (lit "greet", record { overridable = true; call = demo_greet })
    ∷ (lit "sealed", record { overridable = false; call = demo_sealed })
    ∷ []

abbrev pub vsa_module : Module
vsa_module = (lit "recover", record { overridable = true; call = vsa_recover }) ∷ []

pub record ModuleRegistry : Type 0 where
  pub modules : Dict Text Module

unfoldable pub new : ModuleRegistry
new = record { modules = (lit "demo", demo_module) ∷ (lit "vsa", vsa_module) ∷ [] }

unfoldable pub get : ModuleRegistry → Text → Text → Option ModuleFn
get reg module_name name = elim (lookup module_name reg.modules) [
  | none ↦ none
  | some m ↦ lookup name m
]

-- Only the modules in `used` are searched, in their order.
unfoldable pub resolve : ModuleRegistry → List Text → Text → Option ModuleFn
resolve reg [] name = none
resolve reg (m ∷ used) name =
    let rest = resolve reg used name in elim (get reg m name) [ some f ↦ some f | none ↦ rest ]

unfoldable pub resolve_named : ModuleRegistry → List Text → Text → Option (Text × ModuleFn)
resolve_named reg [] name = none
resolve_named reg (m ∷ used) name =
    let rest = resolve_named reg used name in
    elim (get reg m name) [ some f ↦ some (m, f) | none ↦ rest ]

abbrev keys : {V : Type 0} → Dict Text V → List Text
keys [] = []
keys ((k, v) ∷ d) = k ∷ keys d

abbrev names_of : Dict Text Module → List Text
names_of [] = []
names_of ((k, m) ∷ ms) = keys m ++ names_of ms

unfoldable pub all_function_names : ModuleRegistry → List Text
all_function_names reg = names_of reg.modules
