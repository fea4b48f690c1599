-- ===== src/Vm/Exec/Resume.antt =====
-- A suspended run is resumed at its ASK and ends (src/vm/engine.rs: `resume`).
use cubelang.Base.{
  ℕ, ◌≤◌, ◌∷◌, Bool, true, false, Option, none, some, ◌≡◌, refl, sym, ap, if◌then◌else◌, length,
  arith,
}
use cubelang.Base.Dict.{lookup}
use cubelang.Base.Equal.{list_equal, pair_equal}
use cubelang.Program.{CompiledProgram, CompiledFunction}
use cubelang.Bytecode.Scan.{scan_labels}
use cubelang.Vm.Value.{Value}
use cubelang.Vm.State.{
  Host, Vm, Suspension, error, resume_program, resume_function, not_a_candidate,
}
use cubelang.Vm.Turn.{Locals}
use cubelang.Vm.Calls.{find_function}
use cubelang.Vm.Step.Core.{core}
use cubelang.Vm.Exec.{Run, finished, enter, loop, exec_function, keep_program, offered, resume}
use cubelang.Vm.Exec.Turns.{enough, Finishes}
use cubelang.Vm.Exec.Termination.{loop-Finishes}
use cubelang.Vm.Exec.EntryPoints.{IsIdle, code_size, ready, Finishes-keep_program, Declared-small}

module _ (host : Host) where
  open host.floats use {F}

  -- The fuel that is enough for a resumption.
  abbrev pub fuel_after : Vm F → Suspension F → ℕ
  fuel_after vm susp = enough host (code_size vm.programs) (core vm) susp.jump_budget 0

  module _ (f : ℕ) (vm : Vm F) (susp : Suspension F) (answer : Value F) (idle : IsIdle host vm)
      (le : fuel_after vm susp ≤ f) where
    -- The machine at the ASK, with the answer on the stack.
    abbrev answered : Vm F
    answered = record vm {
      stack = answer ∷ vm.stack;
      current_program = some susp.program;
      resume_state = some susp;
    }

    abbrev resumed : Vm F
    resumed = record answered { resume_state = none }

    abbrev suspended_locals : Locals
    suspended_locals = record { pc = susp.pc; flag = susp.flag; jump_budget = susp.jump_budget }

    core-resumed : core resumed ≡ core vm
    core-resumed = ap (λ r. record (core vm) { resume_state = r }) (sym idle.0)

    exec_function-answered :
        (func : CompiledFunction)
        → exec_function host f func answered
          ≡ loop host f func (scan_labels host.floats func.bytecode) suspended_locals resumed
    unfolding exec_function enter
    exec_function-answered func = refl

    Finishes-answered :
        (func : CompiledFunction)
        → length func.bytecode ≤ code_size vm.programs
        → Finishes host (core vm) (exec_function host f func answered)
    Finishes-answered func small = rw (exec_function-answered func) (
        loop-Finishes host (code_size vm.programs) f (core vm) (ready host vm idle) func
          (scan_labels host.floats func.bytecode) suspended_locals resumed core-resumed small
          (omega arith))

    abbrev in_function : Option CompiledFunction → Run F
    in_function o = elim o [
      | none ↦ finished (error (resume_function susp.program susp.function)) vm
      | some func ↦ keep_program host vm.current_program (exec_function host f func answered)
    ]

    abbrev in_program : Option CompiledProgram → Run F
    in_program o = elim o as (λ _. Run F) [
      | none ↦ finished (error (resume_program susp.program)) vm
      | some prog ↦ in_function (find_function host prog susp.function)
    ]

    Finishes-in_function :
        (prog : CompiledProgram) (o : Option CompiledFunction)
        → lookup susp.program vm.programs ≡ some prog
        → find_function host prog susp.function ≡ o
        → Finishes host (core vm) (in_function o)
    Finishes-in_function prog none here found = refl
    Finishes-in_function prog (some func) here found =
        Finishes-keep_program host (core vm) vm.current_program (exec_function host f func answered)
          (Finishes-answered func
            (Declared-small host vm susp.program susp.function prog func here found))

    Finishes-in_program :
        (o : Option CompiledProgram)
        → lookup susp.program vm.programs ≡ o
        → Finishes host (core vm) (in_program o)
    Finishes-in_program none here = refl
    Finishes-in_program (some prog) here =
        Finishes-in_function prog (find_function host prog susp.function) here refl

    Finishes-offered :
        (b : Bool)
        → Finishes host (core vm) (
            if b
            then in_program (lookup susp.program vm.programs)
            else finished (error (not_a_candidate answer (length susp.candidates))) vm)
    Finishes-offered true = Finishes-in_program (lookup susp.program vm.programs) refl
    Finishes-offered false = refl

  -- On an idle machine a resumption ends with the fuel of `fuel_after`, keeps the programs, the jump
  -- budget, the call depth and the pending resumption where it does not panic, and refuses an answer
  -- that is not offered with the machine as it was.
  pub resume-Finishes :
      (f : ℕ) (vm : Vm F) (susp : Suspension F) (answer : Value F)
      → IsIdle host vm
      → fuel_after vm susp ≤ f
      → Finishes host (core vm) (resume host f vm susp answer)
        × ((offered host susp answer ≡ false)
            → resume host f vm susp answer
              ≡ finished (error (not_a_candidate answer (length susp.candidates))) vm)
  unfolding resume
  resume-Finishes f vm susp answer idle le = (
    Finishes-offered f vm susp answer idle le (offered host susp answer),
    λ e. rw (e, resume) refl,
  )
