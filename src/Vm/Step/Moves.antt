-- ===== src/Vm/Step/Moves.antt =====
-- What a turn may do: move forward, or spend a jump (src/vm/engine.rs).
use cubelang.Base.{ℕ, ◌≤◌, ◌<◌, some, ◌≡◌, refl, ◌⊎◌, inl, arith}
use cubelang.Base.Text.{Text}
use cubelang.Base.Dict.{lookup}
use cubelang.Base.Equal.{list_equal, pair_equal}
use cubelang.Program.{CompiledProgram, CompiledFunction}
use cubelang.Vm.State.{Host, Vm, max_call_depth}
use cubelang.Vm.Data.{Effect, goes, fails, panics}
use cubelang.Vm.Turn.{Locals, Turn, next, stop, call, panic, after}
use cubelang.Vm.Calls.{find_function}
use cubelang.Vm.Step.Core.{core}
use cubelang.Vm.Step.Core.Handlers.{KeepsOp}

module _ (host : Host) where
  open host.floats use {F}

  -- At `p` at least with the budget kept, or with less of the budget at a place to jump to.
  abbrev pub Moves : (Locals → Type 0) → ℕ → ℕ → Locals → Type 0
  Moves Place p budget l =
      ((p ≤ l.pc) × (l.jump_budget ≡ budget)) ⊎ ((l.jump_budget < budget) × Place l)

  -- A function of a loaded program.
  abbrev pub Declared : Vm F → CompiledFunction → Type 0
  Declared vm f =
      (name : Text) × (prog : CompiledProgram) × (fn_name : Text) × (lookup name vm.programs
        ≡ some prog)
      × (find_function host prog fn_name ≡ some f)

  abbrev pub IsTurn : (Locals → Type 0) → ℕ → ℕ → Vm F → Turn F → Type 0
  IsTurn Place p budget vm (next l vm1) = (core vm1 ≡ core vm) × Moves Place p budget l
  IsTurn Place p budget vm (stop r vm1) = core vm1 ≡ core vm
  IsTurn Place p budget vm (call f args l vm1) =
      (core vm1 ≡ core vm)
      × Moves Place p budget l
      × (vm.call_depth < max_call_depth)
      × Declared vm f
  IsTurn Place p budget vm panic = Unit

  pub IsTurn-after :
      (Place : Locals → Type 0) (l : Locals) (vm : Vm F) (e : Effect F)
      → KeepsOp host vm (some e)
      → IsTurn Place l.pc l.jump_budget vm (after host l vm e)
  unfolding after
  IsTurn-after Place l vm (goes vm1) h = (h, inl (omega arith, refl))
  IsTurn-after Place l vm (fails e) h = refl
  IsTurn-after Place l vm panics h = tt
