-- ===== src/Vm/Exec.antt =====
-- Runs (src/vm/engine.rs: `exec_function`, `exec_intra_call`, `call`, `call_entry`, `resume`,
-- `load`). The fuel counts turns along one path, a callee's after its caller's; `out_of_fuel` is no
-- outcome of the program.
pub mod Turns
pub mod Termination
pub mod EntryPoints
pub mod Resume
pub mod Outcomes
pub mod Fresh
use cubelang.Base.{
  ℕ, zero, suc, ◌+◌, ◌-◌, ◌==◌, List, [], ◌∷◌, ◌++◌, Bool, true, false, not, ◌&&◌, ◌||◌, Option,
  none, some, if◌then◌else◌, length, get_elem?, any, ◌⊎◌, inl, inr,
}
use cubelang.Base.Text.{Text, lit, show_nat}
use cubelang.Base.Dict.{Dict, lookup, insert}
use cubelang.Base.Equal.{list_equal, pair_equal, list_eq}
use cubelang.Bytecode.Operand.{Hash}
use cubelang.Bytecode.Scan.{scan_labels}
use cubelang.Program.{CompiledProgram, CompiledFunction, Access, external, internal, system}
use cubelang.Vm.Value.{Value, same_selection}
use cubelang.Vm.State.{
  Host, Vm, ExecResult, ok, return, suspend, error, VmError, Suspension, program_not_found,
  function_not_found, is_internal, is_system, already_run, ask_inside_call, not_a_candidate,
  resume_program, resume_function, register_name, register_names,
}
use cubelang.Vm.Resolve.{register_key}
use cubelang.Vm.Turn.{Locals, Turn, next, stop, call, panic}
use cubelang.Vm.Calls.{find_function}
use cubelang.Vm.Step.{turn}

pub data Run (F : Type 0) : Type 0 where
  finished : ExecResult F → Vm F → Run F
  panicked : Run F
  out_of_fuel : Run F

-- Where a function starts: its locals, or a refusal.
pub data Entry (F : Type 0) : Type 0 where
  started : Locals → Vm F → Entry F
  refused : VmError F → Vm F → Entry F

module _ (host : Host) where
  open host.floats use {F}

  abbrev pub once_key : CompiledFunction → Vm F → Text
  once_key func vm = elim vm.current_program [
    | some p ↦ p ++ (lit "." ++ func.name)
    | none ↦ lit "." ++ func.name
  ]

  unfoldable pub start : CompiledFunction → Vm F → Entry F
  start func vm =
      let l : Locals = record { pc = 0; flag = false; jump_budget = vm.jump_budget } in
      let key = once_key func vm in
      if func.once
      then (if any (λ k. list_eq k key) vm.once_called
          then refused (already_run key) vm
          else started l (record vm { once_called = vm.once_called ++ key ∷ [] }))
      else started l vm

  -- A resumed run takes its locals from the suspension, and is no second run of a `@once` function.
  unfoldable pub enter : CompiledFunction → Vm F → Entry F
  enter func vm = elim vm.resume_state [
    | some r ↦
        started (record { pc = r.pc; flag = r.flag; jump_budget = r.jump_budget })
          (record vm { resume_state = none })
    | none ↦ start func vm
  ]

  -- The callee's registers: its arguments as `arg0`, `arg1` and so on.
  unfoldable pub install : ℕ → List (Value F) → Vm F → Vm F
  install i [] vm = vm
  install i (v ∷ vs) vm =
      let name = lit "arg" ++ show_nat i in
      let vm1 = register_name host vm name in
      install (suc i) vs
        (record vm1 { registers = insert (register_key host name) v vm1.registers })

  unfoldable pub enter_call : List (Value F) → Vm F → Vm F
  enter_call args vm =
      let vm1 = install 0 args (record vm { registers = []; vsa_frames = [] }) in
      record vm1 { call_depth = vm1.call_depth + 1 }

  unfoldable pub leave_call : Vm F → Vm F → Vm F
  leave_call caller vm = record vm {
    call_depth = vm.call_depth - 1;
    registers = caller.registers;
    vsa_frames = caller.vsa_frames;
  }

  -- What the caller makes of the callee's outcome: the result on the stack, or an error.
  unfoldable pub returned : ExecResult F → Vm F → VmError F ⊎ Vm F
  returned (ok v) vm = inr (record vm { stack = v ∷ vm.stack })
  returned (return v) vm = inr (record vm { stack = v ∷ vm.stack })
  returned (error e) vm = inl e
  returned (suspend s) vm = inl (ask_inside_call s.function)

  -- The loop of a function. An intra-program call runs the callee's loop and then goes on.
  unfoldable pub loop : ℕ → CompiledFunction → Dict Hash ℕ → Locals → Vm F → Run F
  loop zero func labels l vm = out_of_fuel
  loop (suc f) func labels l vm = elim (turn host func labels l vm) [
    | next l1 vm1 ↦ loop f func labels l1 vm1
    | stop r vm1 ↦ finished r vm1
    | panic ↦ panicked
    | call callee args l1 vm1 ↦ elim (enter callee (enter_call args vm1)) [
      | refused e vm2 ↦ finished (error e) (leave_call vm1 vm2)
      | started l2 vm2 ↦ elim (loop f callee (scan_labels host.floats callee.bytecode) l2 vm2) [
        | out_of_fuel ↦ out_of_fuel
        | panicked ↦ panicked
        | finished r vm3 ↦ elim (returned r (leave_call vm1 vm3)) [
          | inr vm4 ↦ loop f func labels l1 vm4
          | inl e ↦ finished (error e) (leave_call vm1 vm3)
        ]
      ]
    ]
  ]

  unfoldable pub exec_function : ℕ → CompiledFunction → Vm F → Run F
  exec_function f func vm = elim (enter func vm) [
    | refused e vm1 ↦ finished (error e) vm1
    | started l vm1 ↦ loop f func (scan_labels host.floats func.bytecode) l vm1
  ]

  -- `load`: every name of the program is entered in the name table.
  unfoldable pub function_names : List CompiledFunction → List Text
  function_names [] = []
  function_names (f ∷ fs) = f.name ∷ function_names fs

  unfoldable pub load : Vm F → CompiledProgram → Vm F
  load vm prog =
      let vm1 = register_name host vm prog.name in
      let vm2 = register_names host vm1 prog.implements in
      let vm3 = register_names host vm2 prog.storage_fields in
      let vm4 = register_names host vm3 (function_names prog.functions) in
      let vm5 = register_names host vm4 prog.symbol_names in
      record vm5 { programs = insert prog.name prog vm5.programs }

  unfoldable pub bind_name : Text → Value F → Vm F → Vm F
  bind_name name v vm =
      let vm1 = register_name host vm name in
      record vm1 { registers = insert (register_key host name) v vm1.registers }

  -- A host argument goes under the parameter's name and under its alias.
  unfoldable pub bind_args : CompiledFunction → ℕ → List (Value F) → Vm F → Vm F
  bind_args func i [] vm = vm
  bind_args func i (v ∷ vs) vm =
      let vm1 : Vm F = elim (get_elem? func.params i) [ some p ↦ bind_name p v vm | none ↦ vm ] in
      bind_args func (suc i) vs (bind_name (lit "arg" ++ show_nat i) v vm1)

  abbrev pub keep_program : Option Text → Run F → Run F
  keep_program prev (finished r vm) = finished r (record vm { current_program = prev })
  keep_program prev panicked = panicked
  keep_program prev out_of_fuel = out_of_fuel

  unfoldable pub call_function : ℕ → Vm F → Text → Text → List (Value F) → Run F
  call_function f vm program function args = elim (lookup program vm.programs) [
    | none ↦ finished (error (program_not_found program)) vm
    | some prog ↦ elim (find_function host prog function) [
      | none ↦ finished (error (function_not_found program function)) vm
      | some func ↦
          let vm1 = bind_args func 0 args vm in
          keep_program vm1.current_program
            (exec_function f func (record vm1 { current_program = some program }))
    ]
  ]

  unfoldable pub access_of : Vm F → Text → Text → Option Access
  access_of vm program function = elim (lookup program vm.programs) [
    | none ↦ none
    | some prog ↦ elim (find_function host prog function) [
      | none ↦ none
      | some func ↦ some func.access
    ]
  ]

  -- The host's entry: the access attributes are enforced before anything runs.
  unfoldable pub call_entry : ℕ → Vm F → Text → Text → List (Value F) → Run F
  call_entry f vm program function args = elim (access_of vm program function) [
    | none ↦ call_function f vm program function args
    | some access ↦ elim access [
      | internal ↦ finished (error (is_internal program function)) vm
      | system ↦ finished (error (is_system program function)) vm
      | external ↦ call_function f vm program function args
    ]
  ]

  unfoldable pub init : ℕ → Vm F → Text → Run F
  init f vm program = call_function f vm program (lit "constructor") []

  unfoldable pub offered : Suspension F → Value F → Bool
  offered susp answer =
      (length susp.candidates == 0)
      || any (λ c. same_selection host.floats c answer) susp.candidates

  unfoldable pub resume : ℕ → Vm F → Suspension F → Value F → Run F
  resume f vm susp answer =
      let vm1 = record vm {
        stack = answer ∷ vm.stack;
        current_program = some susp.program;
        resume_state = some susp;
      } in
      let found = elim (lookup susp.program vm.programs) as (λ _. Run F) [
        | none ↦ finished (error (resume_program susp.program)) vm
        | some prog ↦ elim (find_function host prog susp.function) [
          | none ↦ finished (error (resume_function susp.program susp.function)) vm
          | some func ↦ keep_program vm.current_program (exec_function f func vm1)
        ]
      ] in
      if offered susp answer
      then found
      else finished (error (not_a_candidate answer (length susp.candidates))) vm
