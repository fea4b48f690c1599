-- ===== src/Vm/Exec/Turns.antt =====
-- How the loop of a function unfolds turn by turn, what an entry and a return keep, and the fuel that is
-- enough.
use native.Mathlib.Nat.{mul-le-mul_right}
use cubelang.Base.{
  ℕ, suc, ◌+◌, ◌-◌, ◌*◌, ◌≤◌, ◌<◌, List, [], ◌∷◌, Bool-cases, none, some, ◌≡◌, refl, ap, ◌⊎◌, inl,
  inr, length, find, All, arith,
}
use cubelang.Base.Text.{Text}
use cubelang.Base.Dict.{Dict, lookup}
use cubelang.Base.Equal.{list_equal, pair_equal, list_eq}
use cubelang.Program.{CompiledProgram, CompiledFunction}
use cubelang.Bytecode.Operand.{Hash}
use cubelang.Bytecode.Scan.{scan_labels}
use cubelang.Vm.Value.{Value}
use cubelang.Vm.State.{
  Host, Vm, ExecResult, ok, return, suspend, error, VmError, max_call_depth, register_name,
}
use cubelang.Vm.Turn.{Locals, next, stop, call, panic}
use cubelang.Vm.Step.{turn}
use cubelang.Vm.Step.Core.{Core, core}
use cubelang.Vm.Exec.{
  Run, finished, panicked, out_of_fuel, Entry, started, refused, start, enter, install, enter_call,
  leave_call, returned, loop,
}

-- The turns that are enough at a position: a whole function for each call level left, a pass over
-- the code for each jump left, and the rest of the code. `size` bounds the code of every function.
abbrev pub need : ℕ → ℕ → ℕ → ℕ → ℕ → ℕ
need size budget depth jumps pc =
    depth * (budget * (size + 1) + (size + 1)) + jumps * (size + 1) + (size - pc) + 1

pub need_forward :
    (size budget depth jumps pc pc1 : ℕ)
    → pc < size
    → pc < pc1
    → need size budget depth jumps pc1 < need size budget depth jumps pc
need_forward size budget depth jumps pc pc1 h k = omega arith

pub suc_product : (a n : ℕ) → suc a * n ≡ a * n + n
suc_product a n = omega arith

pub less_product : (a b n : ℕ) → a < b → a * n + n ≤ b * n
less_product a b n h =
    let le : suc a * n ≤ b * n = mul-le-mul_right n h in omega (arith, suc_product a n)

pub need_jump :
    (size budget depth jumps jumps1 pc pc1 : ℕ)
    → jumps1 < jumps
    → need size budget depth jumps1 pc1 < need size budget depth jumps pc
need_jump size budget depth jumps jumps1 pc pc1 h =
    omega (arith, less_product jumps1 jumps (size + 1) h)

pub need_call :
    (size budget depth jumps pc : ℕ)
    → need size budget depth budget 0 < need size budget (suc depth) jumps pc
need_call size budget depth jumps pc =
    omega (arith, suc_product depth (budget * (size + 1) + (size + 1)))

module _ (host : Host) where
  open host.floats use {F}

  -- The loaded code is within `size`, no resumption is pending, and the call depth is in range.
  pub record IsReady (size : ℕ) (c : Core F) : Type 0 where
    pub bounded :
        (name : Text) (prog : CompiledProgram)
        → lookup name c.programs ≡ some prog
        → All (λ (f : CompiledFunction). length f.bytecode ≤ size) prog.functions
    pub fresh : c.resume_state ≡ none
    pub shallow : c.call_depth ≤ max_call_depth

  abbrev pub enough : ℕ → Core F → ℕ → ℕ → ℕ
  enough size c jumps pc = need size c.jump_budget (max_call_depth - c.call_depth) jumps pc

  -- A run that ends with its outcome keeps the core, and none is cut short.
  abbrev pub Finishes : Core F → Run F → Type 0
  Finishes c (finished r vm) = core vm ≡ c
  Finishes c panicked = Unit
  Finishes c out_of_fuel = ⊥

  pub find-All :
      (size : ℕ) (name : Text) (fs : List CompiledFunction) (f : CompiledFunction)
      → All (λ (g : CompiledFunction). length g.bytecode ≤ size) fs
      → find (λ (g : CompiledFunction). list_eq g.name name) fs ≡ some f
      → length f.bytecode ≤ size
  find-All size name [] f h e = ground arith
  find-All size name (g ∷ fs) f h e = elim (Bool-cases (list_eq g.name name)) [
    | inl hit ↦ ground arith
    | inr miss ↦ find-All size name fs f h.1 (ground arith)
  ]

  pub core-install :
      (i : ℕ) (vs : List (Value F)) (vm : Vm F) → core (install host i vs vm) ≡ core vm
  unfolding install register_name
  core-install i [] vm = refl
  core-install i (v ∷ vs) vm = core-install (suc i) vs _

  abbrev pub deeper : Core F → Core F
  deeper c = record c { call_depth = c.call_depth + 1 }

  pub core-enter_call :
      (args : List (Value F)) (vm : Vm F) → core (enter_call host args vm) ≡ deeper (core vm)
  unfolding enter_call
  core-enter_call args vm =
      ap deeper (core-install 0 args (record vm { registers = []; vsa_frames = [] }))

  pub core-leave_call :
      (caller vm : Vm F) (c : Core F) → core vm ≡ deeper c → core (leave_call host caller vm) ≡ c
  unfolding leave_call
  core-leave_call caller vm c e = ground arith

  abbrev pub IsEntry : Vm F → Entry F → Type 0
  IsEntry vm (started l vm1) = (core vm1 ≡ core vm) × (l.jump_budget ≡ vm.jump_budget) × (l.pc ≡ 0)
  IsEntry vm (refused e vm1) = core vm1 ≡ core vm

  pub start-IsEntry : (func : CompiledFunction) (vm : Vm F) → IsEntry vm (start host func vm)
  unfolding start
  start-IsEntry func vm = ground arith

  pub enter_fresh :
      (func : CompiledFunction) (vm : Vm F)
      → vm.resume_state ≡ none
      → enter host func vm ≡ start host func vm
  unfolding enter
  enter_fresh func vm fresh = ground arith

  pub enter-IsEntry :
      (func : CompiledFunction) (vm : Vm F)
      → vm.resume_state ≡ none
      → IsEntry vm (enter host func vm)
  enter-IsEntry func vm fresh = rw (enter_fresh func vm fresh) (start-IsEntry func vm)

  abbrev pub CoreOf : Core F → VmError F ⊎ Vm F → Type 0
  CoreOf c (inl e) = Unit
  CoreOf c (inr vm) = core vm ≡ c

  pub core-returned :
      (r : ExecResult F) (vm : Vm F) (c : Core F) → core vm ≡ c → CoreOf c (returned host r vm)
  unfolding returned
  core-returned (ok v) vm c e = e
  core-returned (return v) vm c e = e
  core-returned (error x) vm c e = tt
  core-returned (suspend s) vm c e = tt

  module _ (f : ℕ) (func : CompiledFunction) (labels : Dict Hash ℕ) (l : Locals) (vm : Vm F) where
    pub loop_next :
        (l1 : Locals) (vm1 : Vm F)
        → turn host func labels l vm ≡ next l1 vm1
        → loop host (suc f) func labels l vm ≡ loop host f func labels l1 vm1
    unfolding loop
    loop_next l1 vm1 e = rw (e, loop) refl

    pub loop_stop :
        (r : ExecResult F) (vm1 : Vm F)
        → turn host func labels l vm ≡ stop r vm1
        → loop host (suc f) func labels l vm ≡ finished r vm1
    unfolding loop
    loop_stop r vm1 e = rw (e, loop) refl

    pub loop_panic :
        turn host func labels l vm ≡ panic → loop host (suc f) func labels l vm ≡ panicked
    unfolding loop
    loop_panic e = rw (e, loop) refl

    module _ (callee : CompiledFunction) (args : List (Value F)) (l1 : Locals) (vm1 : Vm F)
        (e : turn host func labels l vm ≡ call callee args l1 vm1) where
      pub loop_refused :
          (x : VmError F) (vm2 : Vm F)
          → enter host callee (enter_call host args vm1) ≡ refused x vm2
          → loop host (suc f) func labels l vm ≡ finished (error x) (leave_call host vm1 vm2)
      unfolding loop
      loop_refused x vm2 e2 = rw (e, e2, loop) refl

      -- The callee's run, and what the caller makes of it.
      abbrev pub inner : Locals → Vm F → Run F
      inner l2 vm2 = loop host f callee (scan_labels host.floats callee.bytecode) l2 vm2

      pub loop_crashed :
          (l2 : Locals) (vm2 : Vm F)
          → enter host callee (enter_call host args vm1) ≡ started l2 vm2
          → inner l2 vm2 ≡ panicked
          → loop host (suc f) func labels l vm ≡ panicked
      unfolding loop
      loop_crashed l2 vm2 e2 e3 = rw (e, e2, e3, loop) refl

      pub loop_failed :
          (l2 : Locals) (vm2 : Vm F) (r : ExecResult F) (vm3 : Vm F) (x : VmError F)
          → enter host callee (enter_call host args vm1) ≡ started l2 vm2
          → inner l2 vm2 ≡ finished r vm3
          → returned host r (leave_call host vm1 vm3) ≡ inl x
          → loop host (suc f) func labels l vm ≡ finished (error x) (leave_call host vm1 vm3)
      unfolding loop
      loop_failed l2 vm2 r vm3 x e2 e3 e4 = rw (e, e2, e3, e4, loop) refl

      pub loop-returned :
          (l2 : Locals) (vm2 : Vm F) (r : ExecResult F) (vm3 vm4 : Vm F)
          → enter host callee (enter_call host args vm1) ≡ started l2 vm2
          → inner l2 vm2 ≡ finished r vm3
          → returned host r (leave_call host vm1 vm3) ≡ inr vm4
          → loop host (suc f) func labels l vm ≡ loop host f func labels l1 vm4
      unfolding loop
      loop-returned l2 vm2 r vm3 vm4 e2 e3 e4 = rw (e, e2, e3, e4, loop) refl
