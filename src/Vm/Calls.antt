-- ===== src/Vm/Calls.antt =====
-- CALL and ASK: natives, overrides and functions of the program (src/vm/engine.rs, src/vm/registry.rs).
use cubelang.Base.{
  List, [], ◌∷◌, ◌&&◌, Option, none, some, leb, if◌then◌else◌, get_elem?, drop, find,
}
use cubelang.Base.Int.{ℤ, pos}
use cubelang.Base.Text.{Text}
use cubelang.Base.Dict.{lookup}
use cubelang.Base.Equal.{list_equal, pair_equal, list_eq}
use cubelang.Bytecode.Operand.{Operand}
use cubelang.Bytecode.Scan.{first_key}
use cubelang.Program.{CompiledProgram, CompiledFunction}
use cubelang.Vm.Value.{Value, int, str, null, array, items}
use cubelang.Vm.Registry
use cubelang.Vm.Registry.{ModuleFn, NativeFn, demo_greet, demo_sealed, vsa_recover, resolve}
use cubelang.Vm.State.{
  Host, Vm, suspend, error, unresolved_name, no_program_context, not_loaded, not_found,
  call_depth_exceeded, max_call_depth,
}
use cubelang.Vm.Resolve.{
  resolve_symbol_name, resolve_value, resolve_assign_rhs, resolve_registry_arg,
}
use cubelang.Vm.Frames.{vsa_unbind_cleanup_known}
use cubelang.Vm.Turn.{Locals, Turn, next, stop, call, panic}

module _ (host : Host) where
  open host.floats use {F}

  abbrev values_of : Vm F → List (Operand F) → List (Value F)
  values_of vm [] = []
  values_of vm (o ∷ os) = resolve_value host vm (some o) ∷ values_of vm os

  -- A single candidate that is an array stands for its items.
  unfoldable pub flatten : List (Value F) → List (Value F)
  flatten (array vs ∷ []) = items vs
  flatten candidates = candidates

  abbrev or_empty : Option Text → Text
  or_empty (some t) = t
  or_empty none = []

  unfoldable pub ask : List (Operand F) → CompiledFunction → Locals → Vm F → Turn F
  ask os func l vm =
      stop
        (suspend (record {
          question = str (resolve_symbol_name host vm (get_elem? os 0));
          candidates = flatten (values_of vm (drop 1 os));
          pc = l.pc;
          flag = l.flag;
          jump_budget = l.jump_budget;
          function = func.name;
          program = or_empty vm.current_program;
        }))
        vm

  abbrev recovered_symbol : Option (Text × ℤ) → Value F
  recovered_symbol (some (sym, sim)) = str sym
  recovered_symbol none = null

  unfoldable pub recover : List (Value F) → Vm F → Option (Value F × Vm F)
  recover (str reg ∷ str role ∷ _) vm = elim (vsa_unbind_cleanup_known host vm reg role) [
    | none ↦ none
    | some (hit, vm1) ↦ some (recovered_symbol hit, vm1)
  ]
  recover _ vm = some (null, vm)

  -- What a native function returns; `none` is a panic.
  unfoldable pub run_native : NativeFn → List (Value F) → Vm F → Option (Value F × Vm F)
  run_native demo_greet args vm = some (int (pos 42), vm)
  run_native demo_sealed args vm = some (int (pos 7), vm)
  run_native vsa_recover args vm = recover args vm

  abbrev pub assigned : Vm F → List (Operand F) → List (Value F)
  assigned vm [] = []
  assigned vm (o ∷ os) = resolve_assign_rhs host vm (some o) ∷ assigned vm os

  abbrev pub registry_args : Vm F → List (Operand F) → List (Value F)
  registry_args vm [] = []
  registry_args vm (o ∷ os) = resolve_registry_arg host vm (some o) ∷ registry_args vm os

  unfoldable pub find_function : CompiledProgram → Text → Option CompiledFunction
  find_function prog name = find (λ (f : CompiledFunction). list_eq f.name name) prog.functions

  unfoldable pub call_native : NativeFn → List (Operand F) → Locals → Vm F → Turn F
  call_native native os l vm = elim (run_native native (registry_args vm (drop 1 os)) vm) [
    | none ↦ panic
    | some (v, vm1) ↦ next l (record vm1 { stack = v ∷ vm1.stack })
  ]

  -- A valid override, then a used module's function, then the program's own.
  unfoldable pub dispatch_call :
      Text
      → Text
      → Option CompiledFunction
      → Option ModuleFn
      → List (Operand F)
      → Locals
      → Vm F
      → Turn F
  dispatch_call prog_name fn_name (some f) (some m) os l vm =
      let native = call_native m.call os l vm in
      if f.is_override && m.overridable then call f (assigned vm (drop 1 os)) l vm else native
  dispatch_call prog_name fn_name (some f) none os l vm = call f (assigned vm (drop 1 os)) l vm
  dispatch_call prog_name fn_name none (some m) os l vm = call_native m.call os l vm
  dispatch_call prog_name fn_name none none os l vm = stop (error (not_found fn_name prog_name)) vm

  unfoldable pub call_in : Text → Text → List (Operand F) → Locals → Vm F → Turn F
  call_in prog_name fn_name os l vm = elim (lookup prog_name vm.programs) [
    | none ↦ stop (error (not_loaded prog_name)) vm
    | some prog ↦
        dispatch_call prog_name fn_name (find_function prog fn_name)
          (resolve Registry.new prog.used_modules fn_name) os l vm
  ]

  unfoldable pub called_name : List (Operand F) → Vm F → Option Text
  called_name os vm = elim (first_key host.floats os) [
    | none ↦ none
    | some h ↦ lookup h vm.name_table
  ]

  unfoldable pub call_op : List (Operand F) → Locals → Vm F → Turn F
  call_op os l vm = elim (called_name os vm) [
    | none ↦ stop (error unresolved_name) vm
    | some fn_name ↦
        if leb max_call_depth vm.call_depth
        then stop (error (call_depth_exceeded fn_name)) vm
        else elim vm.current_program [
          | none ↦ stop (error no_program_context) vm
          | some prog_name ↦ call_in prog_name fn_name os l vm
        ]
  ]
