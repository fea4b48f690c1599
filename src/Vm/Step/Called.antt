-- ===== src/Vm/Step/Called.antt =====
-- CALL and ASK are turns (src/vm/engine.rs, src/vm/registry.rs).
use cubelang.Base.{
  ◌<◌, List, ◌∷◌, Bool-cases, true, false, ◌&&◌, Option, none, some, leb, ◌≡◌, refl, inl, inr,
  if◌then◌else◌, drop, arith,
}
use cubelang.Base.Text.{Text}
use cubelang.Base.Dict.{lookup}
use cubelang.Base.Equal.{list_equal, pair_equal}
use cubelang.Program.{CompiledProgram, CompiledFunction}
use cubelang.Bytecode.Operand.{Operand}
use cubelang.Vm.Value.{Value, str}
use cubelang.Vm.State.{
  Host, Vm, error, not_loaded, unresolved_name, no_program_context, call_depth_exceeded,
  max_call_depth,
}
use cubelang.Vm.Registry
use cubelang.Vm.Registry.{ModuleFn, NativeFn, demo_greet, demo_sealed, vsa_recover, resolve}
use cubelang.Vm.Turn.{Locals, Turn, stop, call}
use cubelang.Vm.Calls.{
  ask, recover, run_native, registry_args, assigned, find_function, call_native, dispatch_call,
  call_in, called_name, call_op,
}
use cubelang.Vm.Step.Core.{KeepsResult, core-vsa_unbind_cleanup_known}
use cubelang.Vm.Step.Moves.{Declared, IsTurn}

module _ (host : Host) where
  open host.floats use {F}

  module _ (Place : Locals → Type 0) (l : Locals) (vm : Vm F) where
    abbrev Here : Turn F → Type 0
    Here t = IsTurn host Place l.pc l.jump_budget vm t

    pub Here-ask : (os : List (Operand F)) (func : CompiledFunction) → Here (ask host os func l vm)
    unfolding ask
    Here-ask os func = refl

    core-recover : (args : List (Value F)) → KeepsResult host vm (recover host args vm)
    unfolding recover
    core-recover (str reg ∷ str role ∷ args) =
        ground (arith, core-vsa_unbind_cleanup_known host vm reg role)
    core-recover args = refl

    core-run_native :
        (n : NativeFn) (args : List (Value F)) → KeepsResult host vm (run_native host n args vm)
    unfolding run_native
    core-run_native demo_greet args = refl
    core-run_native demo_sealed args = refl
    core-run_native vsa_recover args = core-recover args

    Here-call_native : (n : NativeFn) (os : List (Operand F)) → Here (call_native host n os l vm)
    unfolding call_native
    Here-call_native n os = ground (arith, core-run_native n (registry_args host vm (drop 1 os)))

    Here-dispatch_call :
        (prog_name fn_name : Text) (own : Option CompiledFunction) (hit : Option ModuleFn)
        (os : List (Operand F))
        → vm.call_depth < max_call_depth
        → ((f : CompiledFunction) → own ≡ some f → Declared host vm f)
        → Here (dispatch_call host prog_name fn_name own hit os l vm)
    unfolding dispatch_call
    Here-dispatch_call p n (some f) (some m) os deep own =
        elim (f.is_override && m.overridable)
          as (λ b. Here (
            if b
            then call f (assigned host vm (drop 1 os)) l vm
            else call_native host m.call os l vm)) [
              | true ↦ (refl, inl (omega arith, refl), deep, own f refl)
              | false ↦ Here-call_native m.call os
            ]
    Here-dispatch_call p n (some f) none os deep own =
        (refl, inl (omega arith, refl), deep, own f refl)
    Here-dispatch_call p n none (some m) os deep own = Here-call_native m.call os
    Here-dispatch_call p n none none os deep own = refl

    Here-call_in :
        (prog_name fn_name : Text) (os : List (Operand F))
        → vm.call_depth < max_call_depth
        → Here (call_in host prog_name fn_name os l vm)
    unfolding call_in
    Here-call_in p n os deep = go (lookup p vm.programs) refl
      where
        go :
            (o : Option CompiledProgram)
            → lookup p vm.programs ≡ o
            → Here (elim o [
              | none ↦ stop (error (not_loaded p)) vm
              | some prog ↦
                  dispatch_call host p n
                    (find_function host prog n)
                    (resolve Registry.new prog.used_modules n)
                    os
                    l
                    vm
            ])
        go none e = refl
        go (some prog) e =
            Here-dispatch_call p n (find_function host prog n)
              (resolve Registry.new prog.used_modules n) os deep (λ f found. (p, prog, n, e, found))

    named_call : Text → List (Operand F) → Turn F
    named_call n os =
        if leb max_call_depth vm.call_depth
        then stop (error (call_depth_exceeded n)) vm
        else elim vm.current_program [
          | none ↦ stop (error no_program_context) vm
          | some p ↦ call_in host p n os l vm
        ]

    Here-named_call : (n : Text) (os : List (Operand F)) → Here (named_call n os)
    unfolding named_call
    Here-named_call n os = elim (Bool-cases (leb max_call_depth vm.call_depth)) [
      | inl full ↦ rw full refl
      | inr free ↦
          rw free
            (elim vm.current_program
              as (λ o. Here (elim o [
                | none ↦ stop (error no_program_context) vm
                | some p ↦ call_in host p n os l vm
              ])) [ none ↦ refl | some p ↦ Here-call_in p n os (ground arith) ])
    ]

    pub Here-call_op : (os : List (Operand F)) → Here (call_op host os l vm)
    unfolding call_op named_call
    Here-call_op os =
        elim (called_name host os vm)
          as (λ o.
            Here (elim o [ none ↦ stop (error unresolved_name) vm | some n ↦ named_call n os ])) [
              | none ↦ refl
              | some n ↦ Here-named_call n os
            ]
