-- ===== src/Vm/Exec/Termination.antt =====
-- Every run of a function ends: the jump budget bounds the turns of a function, and the call depth
-- the functions inside each other.
use cubelang.Base.{
  ℕ, zero, suc, ◌+◌, ◌-◌, ◌≤◌, ◌<◌, List, Bool-cases, some, ltb, ltb→lt, ◌≡◌, refl, ap, ◌∙◌, subst,
  ◌⊎◌, inl, inr, length, arith,
}
use cubelang.Base.Dict.{Dict, lookup}
use cubelang.Base.Equal.{list_equal, pair_equal}
use cubelang.Program.{CompiledFunction}
use cubelang.Bytecode.Operand.{Hash}
use cubelang.Bytecode.Scan.{scan_labels}
use cubelang.Vm.Value.{Value}
use cubelang.Vm.State.{Host, Vm, ok, VmError, max_call_depth}
use cubelang.Vm.Turn.{Locals, Turn, next, stop, call, panic}
use cubelang.Vm.Calls.{find_function}
use cubelang.Vm.Step.{turn}
use cubelang.Vm.Step.Core.{Core, core}
use cubelang.Vm.Step.Moves.{Moves, Declared, IsTurn}
use cubelang.Vm.Step.Progress.{Jumped, turn-IsTurn, turn_past}
use cubelang.Vm.Exec.{
  Run, finished, panicked, out_of_fuel, Entry, started, refused, enter, enter_call, leave_call,
  returned, loop,
}
use cubelang.Vm.Exec.Turns.{
  need, need_forward, need_jump, need_call, IsReady, enough, Finishes, find-All, deeper,
  core-enter_call, core-leave_call, IsEntry, enter-IsEntry, CoreOf, core-returned, loop_next,
  loop_stop, loop_panic, loop_refused, loop_crashed, loop_failed, loop-returned,
}

module _ (host : Host) where
  open host.floats use {F}

  module _ (size : ℕ) where
    -- One more turn, where the rest finishes.
    abbrev pub Rest : ℕ → Core F → Type 0
    Rest f c =
        (func : CompiledFunction) (labels : Dict Hash ℕ) (l : Locals) (vm : Vm F)
        → core vm ≡ c
        → length func.bytecode ≤ size
        → enough host size c l.jump_budget l.pc ≤ f
        → Finishes host c (loop host f func labels l vm)

    moved :
        (Place : Locals → Type 0) (c : Core F) (pc jumps f : ℕ) (l : Locals)
        → pc < size
        → Moves host Place (suc pc) jumps l
        → enough host size c jumps pc ≤ suc f
        → enough host size c l.jump_budget l.pc ≤ f
    moved Place c pc jumps f l inside (inl (ahead, kept)) le = rw kept (
        omega (
          arith,
          need_forward size c.jump_budget (max_call_depth - c.call_depth) jumps pc l.pc inside
              ahead,
        ))
    moved Place c pc jumps f l inside (inr (spent, there)) le = omega (
      arith,
      need_jump size c.jump_budget (max_call_depth - c.call_depth) jumps l.jump_budget pc l.pc
          spent,
    )

    deeper-IsReady :
        (c : Core F)
        → IsReady host size c
        → c.call_depth < max_call_depth
        → IsReady host size (deeper host c)
    deeper-IsReady c ready room = record {
      bounded = ready.bounded;
      fresh = ready.fresh;
      shallow = omega arith;
    }

    called :
        (c : Core F) (jumps pc f : ℕ)
        → c.call_depth < max_call_depth
        → enough host size c jumps pc ≤ suc f
        → enough host size (deeper host c) c.jump_budget 0 ≤ f
    called c jumps pc f room le =
        let level : max_call_depth - c.call_depth ≡ suc (max_call_depth - (c.call_depth + 1)) =
          omega arith in
        let le1 : need size c.jump_budget (suc (max_call_depth - (c.call_depth + 1))) jumps pc
            ≤ suc f =
          subst (λ (d : ℕ). need size c.jump_budget d jumps pc ≤ suc f) level le in
        omega (arith, need_call size c.jump_budget (max_call_depth - (c.call_depth + 1)) jumps pc)

    module _ (f : ℕ) (ih : (c : Core F) → IsReady host size c → Rest f c) (c : Core F)
        (ready : IsReady host size c) (func : CompiledFunction) (labels : Dict Hash ℕ) (l : Locals)
        (vm : Vm F) (same : core vm ≡ c) (small : length func.bytecode ≤ size)
        (le : enough host size c l.jump_budget l.pc ≤ suc f) (inside : l.pc < size) where
      module _ (callee : CompiledFunction) (args : List (Value F)) (l1 : Locals) (vm1 : Vm F)
          (e : turn host func labels l vm ≡ call callee args l1 vm1) (same1 : core vm1 ≡ c)
          (moves : Moves host (Jumped host func labels l) (suc l.pc) l.jump_budget l1)
          (room : c.call_depth < max_call_depth)
          (callee_small : length callee.bytecode ≤ size) where
        abbrev entered : Vm F
        entered = enter_call host args vm1

        core-entered : core entered ≡ deeper host c
        core-entered = core-enter_call host args vm1 ∙ ap (deeper host) same1

        back : (vm2 : Vm F) → core vm2 ≡ deeper host c → core (leave_call host vm1 vm2) ≡ c
        back vm2 e2 = core-leave_call host vm1 vm2 c e2

        after_callee :
            (l2 : Locals) (vm2 : Vm F) (run : Run F)
            → enter host callee entered ≡ started l2 vm2
            → loop host f callee (scan_labels host.floats callee.bytecode) l2 vm2 ≡ run
            → Finishes host (deeper host c) run
            → Finishes host c (loop host (suc f) func labels l vm)
        after_callee l2 vm2 out_of_fuel e2 e3 h = absurd h
        after_callee l2 vm2 panicked e2 e3 h =
            rw (loop_crashed host f func labels l vm callee args l1 vm1 e l2 vm2 e2 e3) tt
        after_callee l2 vm2 (finished r vm3) e2 e3 h =
            go (returned host r (leave_call host vm1 vm3)) refl
              (core-returned host r (leave_call host vm1 vm3) c (back vm3 h))
          where
            go :
                (o : VmError F ⊎ Vm F)
                → returned host r (leave_call host vm1 vm3) ≡ o
                → CoreOf host c o
                → Finishes host c (loop host (suc f) func labels l vm)
            go (inl x) e4 kept =
                rw
                  (loop_failed host f func labels l vm callee args l1 vm1 e l2 vm2 r vm3 x e2 e3 e4)
                  (back vm3 h)
            go (inr vm4) e4 kept =
                rw
                  (loop-returned host f func labels l vm callee args l1 vm1 e l2 vm2 r vm3 vm4 e2 e3
                    e4)
                  (ih c ready func labels l1 vm4 kept small
                    (moved (Jumped host func labels l) c l.pc l.jump_budget f l1 inside moves le))

        after_entry :
            (entry : Entry F)
            → enter host callee entered ≡ entry
            → IsEntry host entered entry
            → Finishes host c (loop host (suc f) func labels l vm)
        after_entry (refused x vm2) e2 kept =
            rw (loop_refused host f func labels l vm callee args l1 vm1 e x vm2 e2)
              (back vm2 (kept ∙ core-entered))
        after_entry (started l2 vm2) e2 (kept, jumps, begin) =
            let fuel : enough host size (deeper host c) l2.jump_budget l2.pc ≤ f =
              rw (jumps, begin, ap (λ (k : Core F). k.jump_budget) core-entered)
                (called c l.jump_budget l.pc f room le) in
            after_callee l2 vm2 _ e2 refl (
              ih (deeper host c) (deeper-IsReady c ready room) callee
                (scan_labels host.floats callee.bytecode) l2 vm2 (kept ∙ core-entered) callee_small
                fuel)

      Declared-small :
          (callee : CompiledFunction) → Declared host vm callee → length callee.bytecode ≤ size
      unfolding find_function
      Declared-small callee (name, prog, fn_name, here, found) =
          find-All host size fn_name prog.functions callee
            (ready.bounded name prog
              (subst (λ (k : Core F). lookup name k.programs ≡ some prog) same here))
            found

      after_turn :
          (t : Turn F)
          → turn host func labels l vm ≡ t
          → IsTurn host (Jumped host func labels l) (suc l.pc) l.jump_budget vm t
          → Finishes host c (loop host (suc f) func labels l vm)
      after_turn (next l1 vm1) e (kept, moves) = rw (loop_next host f func labels l vm l1 vm1 e) (
          ih c ready func labels l1 vm1 (kept ∙ same) small
            (moved (Jumped host func labels l) c l.pc l.jump_budget f l1 inside moves le))
      after_turn (stop r vm1) e kept = rw (loop_stop host f func labels l vm r vm1 e) (kept ∙ same)
      after_turn panic e h = rw (loop_panic host f func labels l vm e) tt
      after_turn (call callee args l1 vm1) e (kept, moves, room, declared) =
          let same1 = kept ∙ same in
          after_entry callee args l1 vm1 e same1 moves
            (subst (λ (k : Core F). k.call_depth < max_call_depth) same room)
            (Declared-small callee declared) (enter host callee (enter_call host args vm1)) refl
            (enter-IsEntry host callee (enter_call host args vm1) (
              ap (λ (k : Core F). k.resume_state)
                (core-enter_call host args vm1 ∙ ap (deeper host) same1)
              ∙ ready.fresh))

    -- Ready and with enough fuel, the loop of a function ends.
    pub loop-Finishes : (f : ℕ) (c : Core F) → IsReady host size c → Rest f c
    loop-Finishes zero c ready func labels l vm same small le = absurd (omega arith)
    loop-Finishes (suc f) c ready func labels l vm same small le =
        elim (Bool-cases (ltb l.pc (length func.bytecode))) [
          | inr past ↦
              rw
                (loop_stop host f func labels l vm (ok vm.accumulator) vm
                  (turn_past host func labels l vm past))
                same
          | inl inside ↦
              after_turn f (loop-Finishes f) c ready func labels l vm same small le
                (omega (arith, ltb→lt l.pc (length func.bytecode) inside))
                (turn host func labels l vm) refl (turn-IsTurn host func labels l vm)
        ]
