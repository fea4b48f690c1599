-- ===== src/Interfaces.antt =====
-- The standard interfaces (src/vm/interfaces.rs: `InterfaceRegistry`).
use cubelang.Base.{ℕ, List, [], ◌∷◌, Option}
use cubelang.Base.Text.{Text, lit}
use cubelang.Base.Dict.{Dict, lookup}
use cubelang.Base.Equal.{list_equal}

pub record InterfaceFn : Type 0 where
  pub name : Text
  pub arity : ℕ

abbrev pub member : Text → ℕ → InterfaceFn
member name arity = record { name = name; arity = arity }

pub record InterfaceRegistry : Type 0 where
  pub interfaces : Dict Text (List InterfaceFn)

unfoldable pub new : InterfaceRegistry
new = record {
  interfaces =
      (lit "ISolve", member (lit "solve") 1 ∷ [])
      ∷ (
        lit "ISolver",
        member (lit "parse") 1 ∷ member (lit "solve") 1 ∷ member (lit "verify") 2 ∷ [],
      )
      ∷ (
        lit "ISolverLearn",
        member (lit "parse") 1
            ∷ member (lit "solve") 1
            ∷ member (lit "verify") 2
            ∷ member (lit "learn") 3
            ∷ [],
      )
      ∷ (
        lit "IAgent",
        member (lit "think") 2 ∷ member (lit "act") 2 ∷ member (lit "observe") 2 ∷ [],
      )
      ∷ [];
}

unfoldable pub get : InterfaceRegistry → Text → Option (List InterfaceFn)
get registry name = lookup name registry.interfaces
