-- ===== src/Vm/Turn.antt =====
-- The locals of the loop of `exec_function` and what one turn does (src/vm/engine.rs).
use cubelang.Base.{ℕ, List, Bool}
use cubelang.Base.Equal.{list_equal, pair_equal}
use cubelang.Program.{CompiledFunction}
use cubelang.Vm.Value.{Value}
use cubelang.Vm.State.{Host, Vm, ExecResult, error}
use cubelang.Vm.Data.{Effect, goes, fails, panics}

-- The interpreter's locals.
pub record Locals : Type 0 where
  pub pc : ℕ
  pub flag : Bool
  pub jump_budget : ℕ

-- A turn goes on, ends the function with an outcome, calls a function of the program, or panics.
pub data Turn (F : Type 0) : Type 0 where
  next : Locals → Vm F → Turn F
  stop : ExecResult F → Vm F → Turn F
  call : CompiledFunction → List (Value F) → Locals → Vm F → Turn F
  panic : Turn F

module _ (host : Host) where
  open host.floats use {F}

  unfoldable pub after : Locals → Vm F → Effect F → Turn F
  after l vm (goes vm1) = next l vm1
  after l vm (fails e) = stop (error e) vm
  after l vm panics = panic
