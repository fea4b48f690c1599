-- ===== src/Vm/Step.antt =====
-- One turn of the loop of `exec_function` (src/vm/engine.rs): budgets, the fetch, and the opcode.
pub mod Core
pub mod Progress
pub mod Moves
pub mod Called
use cubelang.Base.{
  ℕ, zero, suc, ◌+◌, ◌-◌, ◌%◌, ◌==◌, List, [], ◌∷◌, Bool, true, false, not, ◌&&◌, ◌||◌, Option,
  none, some, ltb, leb, if◌then◌else◌, length, get_elem?, drop, find, any,
}
use cubelang.Base.Int.{ℤ, pos, eq_ℤ, ltb_ℤ, leb_ℤ}
use cubelang.Base.Text.{Text, lit, text_lt}
use cubelang.Base.Dict.{Dict, lookup, insert}
use cubelang.Base.Equal.{list_equal, pair_equal, list_eq}
use cubelang.Bytecode.Op
use cubelang.Bytecode.Operand.{Operand, Hash, named, imm, global, label_key}
use cubelang.Bytecode.Scan.{Fetched, ended, skipped, truncated, fetched, fetch, first_key}
use cubelang.Program.{CompiledProgram, CompiledFunction}
use cubelang.Vm.Value.{Value, int, str, bool, null, array, items, as_i64, plus, minus, times}
use cubelang.Vm.Registry
use cubelang.Vm.Registry.{ModuleFn, NativeFn, demo_greet, demo_sealed, vsa_recover, resolve}
use cubelang.Vm.State.{
  Host, Vm, ExecResult, ok, return, suspend, error, VmError, Suspension, op_budget_exhausted,
  wall_budget_exhausted, jump_budget_exhausted, unresolved_name, no_program_context, not_loaded,
  not_found, call_depth_exceeded, unknown_opcode, max_call_depth,
}
use cubelang.Vm.Resolve.{
  name_at, resolve_symbol_name, resolve_value, resolve_assign_rhs, resolve_registry_arg,
}
use cubelang.Vm.Frames.{vsa_unbind_cleanup_known}
use cubelang.Vm.Data
use cubelang.Vm.Data.{Effect, goes, fails, panics, put}
use cubelang.Vm.Turn.{Locals, Turn, next, stop, call, panic, after}
use cubelang.Vm.Data.Dispatch.{data_op}
use cubelang.Vm.Calls.{ask, call_op}

module _ (host : Host) where
  open host.floats use {F}

  -- The kind of a comparison: the third operand, where it is an immediate.
  unfoldable pub kind_of : List (Operand F) → ℤ
  kind_of os = elim (get_elem? os 2) [ some o ↦ elim o [ imm k ↦ k | _ ↦ pos 0 ] | none ↦ pos 0 ]

  unfoldable pub compare_by : ℤ → Bool → Bool → Bool → Bool
  compare_by kind equal less truthy =
      if eq_ℤ kind (pos 0)
      then equal
      else if eq_ℤ kind (pos 1)
      then not equal
      else if eq_ℤ kind (pos 2)
      then less
      else if eq_ℤ kind (pos 3)
      then less || equal
      else if eq_ℤ kind (pos 4)
      then not (less || equal)
      else if eq_ℤ kind (pos 5)
      then not less
      else if eq_ℤ kind (pos 6)
      then truthy
      else false

  abbrev word_of : ℤ → Bool → Bool → Bool → Text
  word_of kind equal less flag =
      if eq_ℤ kind (pos 0) || eq_ℤ kind (pos 1)
      then (if equal then lit "equal" else if less then lit "less" else lit "greater")
      else (if flag then lit "true" else lit "false")

  unfoldable pub compare_values : ℤ → Value F → Value F → Bool × Text
  compare_values kind (str x) (str y) =
      let flag = compare_by kind (list_eq x y) (text_lt x y) false in
      (flag, word_of kind (list_eq x y) (text_lt x y) flag)
  compare_values kind va vb =
      let a = as_i64 host.floats va in
      let b = as_i64 host.floats vb in
      let flag = compare_by kind (eq_ℤ a b) (ltb_ℤ a b) (not (eq_ℤ a (pos 0))) in
      (flag, word_of kind (eq_ℤ a b) (ltb_ℤ a b) flag)

  unfoldable pub compare : List (Operand F) → Locals → Vm F → Turn F
  compare os l vm =
      let kind = kind_of os in
      let va = resolve_value host vm (get_elem? os 0) in
      let vb = if eq_ℤ kind (pos 6) then int (pos 0) else resolve_value host vm (get_elem? os 1) in
      let (flag, word) = compare_values kind va vb in
      next (record l { flag = flag })
        (record vm {
          registers = insert (lit "__cmp") (str word) vm.registers;
          accumulator = bool flag;
        })

  unfoldable pub target_of : List (Operand F) → Dict Hash ℕ → Option ℕ
  target_of os labels = elim (first_key host.floats os) [ none ↦ none | some k ↦ lookup k labels ]

  -- A jump to a known label costs one of the budget; to an unknown one it falls through.
  unfoldable pub jump : List (Operand F) → Dict Hash ℕ → Locals → Vm F → Turn F
  jump os labels l vm = elim (target_of os labels) [
    | none ↦ next l vm
    | some target ↦
        if l.jump_budget == 0
        then stop (error jump_budget_exhausted) vm
        else next (record l { pc = target; jump_budget = l.jump_budget - 1 })
            (record vm { jumps_taken = vm.jumps_taken + 1 })
  ]

  unfoldable pub cond : List (Operand F) → Dict Hash ℕ → Locals → Vm F → Turn F
  cond os labels l vm = let jumped = jump os labels l vm in if l.flag then next l vm else jumped

  unfoldable pub return_op : List (Operand F) → Vm F → Turn F
  return_op [] vm = stop (return vm.accumulator) vm
  return_op (o ∷ os) vm =
      let v = resolve_value host vm (some o) in stop (return v) (record vm { accumulator = v })

  unfoldable pub control_op :
      ℕ → List (Operand F) → CompiledFunction → Dict Hash ℕ → Locals → Vm F → Turn F
  control_op op os func labels l vm =
      if op == Op.compare
      then compare os l vm
      else if op == Op.jmp
      then jump os labels l vm
      else if op == Op.cond
      then cond os labels l vm
      else if op == Op.return
      then return_op os vm
      else if op == Op.call
      then call_op host os l vm
      else if op == Op.ask
      then ask host os func l vm
      else stop (error (unknown_opcode op l.pc)) vm

  unfoldable pub execute :
      ℕ → List (Operand F) → CompiledFunction → Dict Hash ℕ → Locals → Vm F → Turn F
  execute op os func labels l vm = elim (data_op host op os vm) [
    | some e ↦ after host l vm e
    | none ↦ control_op op os func labels l vm
  ]

  -- The budgets on the request, checked before the opcode runs.
  unfoldable pub over_budget : Vm F → Option (VmError F)
  over_budget vm =
      if ltb 0 vm.op_budget && ltb vm.op_budget vm.ops_executed
      then some (op_budget_exhausted vm.op_budget)
      else if vm.deadline && (vm.ops_executed % 64 == 0) && host.expired vm.ops_executed
      then some wall_budget_exhausted
      else none

  unfoldable pub instruction : Fetched F → CompiledFunction → Dict Hash ℕ → Locals → Vm F → Turn F
  instruction ended func labels l vm = stop (ok vm.accumulator) vm
  instruction truncated func labels l vm = stop (ok vm.accumulator) vm
  instruction skipped func labels l vm = next (record l { pc = l.pc + 1 }) vm
  instruction (fetched op os width) func labels l vm =
      execute op os func labels (record l { pc = l.pc + width }) vm

  abbrev pub counted : Vm F → Vm F
  counted vm = record vm { ops_executed = vm.ops_executed + 1 }

  -- One turn: past the end the accumulator is the result.
  unfoldable pub turn : CompiledFunction → Dict Hash ℕ → Locals → Vm F → Turn F
  turn func labels l vm =
      if ltb l.pc (length func.bytecode)
      then elim (over_budget (counted vm)) [
        | some e ↦ stop (error e) (counted vm)
        | none ↦
            instruction (fetch host.floats (drop l.pc func.bytecode)) func labels l (counted vm)
      ]
      else stop (ok vm.accumulator) vm
