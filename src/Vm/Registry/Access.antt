-- ===== src/Vm/Registry/Access.antt =====
-- Access to the registry is denied by default.
use cubelang.Base.{
  Option, List, [], ◌∷◌, Option-cases, none, some, ◌≡◌, ◌⊎◌, ◌↔◌, inl, inr, refl, arith,
}
use cubelang.Base.Text.{Text}
use cubelang.Vm.Registry.{ModuleRegistry, ModuleFn, get, resolve, resolve_named}

-- The module is among the used ones, and no earlier one exposes the name.
abbrev pub FirstUse : ModuleRegistry → List Text → Text → Text → ModuleFn → Type 0
FirstUse reg [] name m f = ⊥
FirstUse reg (u ∷ used) name m f =
    ((u ≡ m) × (get reg u name ≡ some f)) ⊎ ((get reg u name ≡ none) × FirstUse reg used name m f)

-- The function of an answer of `resolve_named`.
abbrev pub function_of : Option (Text × ModuleFn) → Option ModuleFn
function_of none = none
function_of (some (m, f)) = some f

-- A name resolves to a module's function exactly where that module is the first of the used ones
-- that exposes it, and `resolve` answers the function of what `resolve_named` does, and nothing
-- where it answers nothing.
pub resolve_named-FirstUse :
    (reg : ModuleRegistry) (used : List Text) (name m : Text) (f : ModuleFn)
    → ((resolve_named reg used name ≡ some (m, f)) ↔ FirstUse reg used name m f)
      × (resolve reg used name ≡ function_of (resolve_named reg used name))
unfolding resolve resolve_named
resolve_named-FirstUse reg [] name m f = (((λ e. ground arith), (λ h. absurd h)), refl)
resolve_named-FirstUse reg (u ∷ used) name m f =
    let (same, less) = resolve_named-FirstUse reg used name m f in
    elim (Option-cases (get reg u name)) [
      | inl absent ↦
          rw (absent, resolve_named, resolve)
            (
              (
                (λ e. inr (refl, same.0 e)),
                (λ h. elim h [ inl (p, q) ↦ ground arith | inr (p, q) ↦ same.1 q ]),
              ),
              less,
            )
      | inr (g, found) ↦
          rw (found, resolve_named, resolve)
            (
              (
                (λ e. inl (ground arith, ground arith)),
                (λ h. elim h [ inl (p, q) ↦ ground arith | inr (p, q) ↦ ground arith ]),
              ),
              refl,
            )
    ]
