-- ===== src/Vm/Exec/EntryPoints.antt =====
-- The host's entry points end, keep the loaded programs, and enforce the access attributes
-- (src/vm/engine.rs: `call`, `call_entry`, `resume`).
use cubelang.Base.{
  ℕ, suc, ◌≤◌, max, List, [], ◌∷◌, ◌++◌, Bool-cases, Option, none, some, ◌≡◌, refl, sym, subst, inl,
  inr, length, get_elem?, All, arith,
}
use cubelang.Base.Text.{Text, lit, show_nat}
use cubelang.Base.Dict.{Dict, lookup}
use cubelang.Base.Equal.{list_equal, pair_equal, list_eq}
use cubelang.Program.{CompiledProgram, CompiledFunction}
use cubelang.Bytecode.Scan.{scan_labels}
use cubelang.Vm.Value.{Value}
use cubelang.Vm.State.{
  Host, Vm, error, max_call_depth, register_name, function_not_found, program_not_found,
}
use cubelang.Vm.Calls.{find_function}
use cubelang.Vm.Step.Core.{Core, core}
use cubelang.Vm.Exec.{
  Run, finished, panicked, out_of_fuel, Entry, started, refused, enter, loop, exec_function,
  bind_name, bind_args, keep_program, call_function,
}
use cubelang.Vm.Exec.Turns.{IsReady, enough, Finishes, IsEntry, find-All, enter-IsEntry}
use cubelang.Vm.Exec.Termination.{loop-Finishes}

-- The longest code of the loaded functions.
abbrev pub longest : List CompiledFunction → ℕ
longest [] = 0
longest (f ∷ fs) = max (length f.bytecode) (longest fs)

abbrev pub code_size : Dict Text CompiledProgram → ℕ
code_size [] = 0
code_size ((name, p) ∷ ps) = max (longest p.functions) (code_size ps)

longest-All :
    (size : ℕ) (fs : List CompiledFunction)
    → longest fs ≤ size
    → All (λ (f : CompiledFunction). length f.bytecode ≤ size) fs
longest-All size [] h = tt
longest-All size (f ∷ fs) h = (omega arith, longest-All size fs (omega arith))

code_size-All :
    (size : ℕ) (ps : Dict Text CompiledProgram) (name : Text) (p : CompiledProgram)
    → code_size ps ≤ size
    → lookup name ps ≡ some p
    → All (λ (f : CompiledFunction). length f.bytecode ≤ size) p.functions
unfolding lookup
code_size-All size [] name p h e = ground arith
code_size-All size ((n, q) ∷ ps) name p h e = elim (Bool-cases (list_eq n name)) [
  | inl hit ↦
      let this : q ≡ p = ground arith in
      subst
        (λ (r : CompiledProgram).
          All (λ (f : CompiledFunction). length f.bytecode ≤ size) r.functions)
        this (longest-All size q.functions (omega arith))
  | inr miss ↦ code_size-All size ps name p (omega arith) (ground arith)
]

module _ (host : Host) where
  open host.floats use {F}

  -- A machine between two runs.
  abbrev pub IsIdle : Vm F → Type 0
  IsIdle vm = (vm.resume_state ≡ none) × (vm.call_depth ≤ max_call_depth)

  -- The fuel that is enough for any entry.
  abbrev pub fuel_for : Vm F → ℕ
  fuel_for vm = enough host (code_size vm.programs) (core vm) vm.jump_budget 0

  pub ready : (vm : Vm F) → IsIdle vm → IsReady host (code_size vm.programs) (core vm)
  ready vm (fresh, shallow) = record {
    bounded =
        λ name p here. code_size-All (code_size vm.programs) vm.programs name p (omega arith) here;
    fresh = fresh;
    shallow = shallow;
  }

  core-bind_args :
      (func : CompiledFunction) (i : ℕ) (vs : List (Value F)) (vm : Vm F)
      → core (bind_args host func i vs vm) ≡ core vm
  unfolding bind_args bind_name register_name
  core-bind_args func i [] vm = refl
  core-bind_args func i (v ∷ vs) vm =
      elim (get_elem? func.params i)
        as (λ o.
          core (
            bind_args host func (suc i) vs (
              bind_name host (lit "arg" ++ show_nat i) v
                (elim o [ some p ↦ bind_name host p v vm | none ↦ vm ])))
          ≡ core vm) [
            | none ↦ core-bind_args func (suc i) vs _
            | some p ↦ core-bind_args func (suc i) vs _
          ]

  exec_function-Finishes :
      (f size : ℕ) (func : CompiledFunction) (vm : Vm F)
      → IsReady host size (core vm)
      → length func.bytecode ≤ size
      → enough host size (core vm) vm.jump_budget 0 ≤ f
      → Finishes host (core vm) (exec_function host f func vm)
  unfolding exec_function
  exec_function-Finishes f size func vm ready small le =
      go (enter host func vm) (enter-IsEntry host func vm ready.fresh)
    where
      go :
          (entry : Entry F)
          → IsEntry host vm entry
          → Finishes host (core vm) (elim entry [
            | refused e vm1 ↦ finished (error e) vm1
            | started l vm1 ↦ loop host f func (scan_labels host.floats func.bytecode) l vm1
          ])
      go (refused e vm1) kept = kept
      go (started l vm1) (kept, jumps, begin) =
          loop-Finishes host size f (core vm) ready func (scan_labels host.floats func.bytecode) l
            vm1 kept small (rw (jumps, begin) le)

  pub Finishes-keep_program :
      (c : Core F) (prev : Option Text) (run : Run F)
      → Finishes host c run
      → Finishes host c (keep_program host prev run)
  Finishes-keep_program c prev (finished r vm) h = h
  Finishes-keep_program c prev panicked h = tt
  Finishes-keep_program c prev out_of_fuel h = h

  pub Declared-small :
      (vm : Vm F) (name fn_name : Text) (prog : CompiledProgram) (func : CompiledFunction)
      → lookup name vm.programs ≡ some prog
      → find_function host prog fn_name ≡ some func
      → length func.bytecode ≤ code_size vm.programs
  unfolding find_function
  Declared-small vm name fn_name prog func here found =
      find-All host (code_size vm.programs) fn_name prog.functions func
        (code_size-All (code_size vm.programs) vm.programs name prog (omega arith) here) found

  module _ (f : ℕ) (vm : Vm F) (program function : Text) (args : List (Value F)) (idle : IsIdle vm)
      (le : fuel_for vm ≤ f) where
    abbrev run : CompiledFunction → Run F
    run func =
        let vm1 = bind_args host func 0 args vm in
        keep_program host vm1.current_program
          (exec_function host f func (record vm1 { current_program = some program }))

    run-Finishes :
        (prog : CompiledProgram) (func : CompiledFunction)
        → lookup program vm.programs ≡ some prog
        → find_function host prog function ≡ some func
        → Finishes host (core vm) (run func)
    run-Finishes prog func here found =
        let vm1 = bind_args host func 0 args vm in
        let vm2 : Vm F = record vm1 { current_program = some program } in
        let same : core vm2 ≡ core vm = core-bind_args func 0 args vm in
        Finishes-keep_program (core vm) vm1.current_program (exec_function host f func vm2) (
          subst (λ (c : Core F). Finishes host c (exec_function host f func vm2)) same
            (exec_function-Finishes f (code_size vm.programs) func vm2
              (subst (λ (c : Core F). IsReady host (code_size vm.programs) c) (sym same)
                (ready vm idle))
              (Declared-small vm program function prog func here found)
              (subst (λ (c : Core F). enough host (code_size vm.programs) c c.jump_budget 0 ≤ f)
                (sym same) le)))

    in_program :
        (prog : CompiledProgram)
        → lookup program vm.programs ≡ some prog
        → Finishes host (core vm) (elim (find_function host prog function) [
          | none ↦ finished (error (function_not_found program function)) vm
          | some func ↦ run func
        ])
    in_program prog here = go (find_function host prog function) refl
      where
        go :
            (o : Option CompiledFunction)
            → find_function host prog function ≡ o
            → Finishes host (core vm) (elim o [
              | none ↦ finished (error (function_not_found program function)) vm
              | some func ↦ run func
            ])
        go none found = refl
        go (some func) found = run-Finishes prog func here found

  -- A call of a function on an idle machine ends, whatever the code: with the fuel of `fuel_for` it
  -- is not cut short, and where it does not panic it leaves the programs, the jump budget, the call
  -- depth and the pending resumption as they were.
  pub call_function-Finishes :
      (f : ℕ) (vm : Vm F) (program function : Text) (args : List (Value F))
      → IsIdle vm
      → fuel_for vm ≤ f
      → Finishes host (core vm) (call_function host f vm program function args)
  unfolding call_function
  call_function-Finishes f vm program function args idle le = go (lookup program vm.programs) refl
    where
      go :
          (o : Option CompiledProgram)
          → lookup program vm.programs ≡ o
          → Finishes host (core vm) (elim o [
            | none ↦ finished (error (program_not_found program)) vm
            | some prog ↦ elim (find_function host prog function) [
              | none ↦ finished (error (function_not_found program function)) vm
              | some func ↦ run f vm program function args idle le func
            ]
          ])
      go none here = refl
      go (some prog) here = in_program f vm program function args idle le prog here
