-- ===== src/Vm/Step/Progress.antt =====
-- What every turn does to the locals: it moves forward, or spends a jump.
use cubelang.Base.{
  ==_iff, ◌-◌, ◌⊎◌, Option-cases, ℕ, suc, ◌+◌, ◌≤◌, ◌==◌, List, [], ◌∷◌, Bool, Bool-cases, true,
  false, Option, none, some, ltb, ◌≡◌, refl, inl, inr, if◌then◌else◌, length, drop, arith,
}
use cubelang.Base.Dict.{Dict}
use cubelang.Base.Equal.{list_equal, pair_equal}
use cubelang.Program.{CompiledFunction}
use cubelang.Bytecode.Op
use cubelang.Bytecode.Operand.{Operand, Hash}
use cubelang.Bytecode.Scan.{
  Fetched, ended, skipped, truncated, fetched, fetch, fetch-skip, fetch_truncated, fetch_instr,
}
use cubelang.Vm.State.{Host, Vm, ok, error}
use cubelang.Vm.Data.{Effect}
use cubelang.Vm.Turn.{Locals, Turn, next, stop, call, panic, after}
use cubelang.Vm.Data.Dispatch.{data_op}
use cubelang.Vm.Step.{
  compare, jump, cond, return_op, control_op, execute, target_of, over_budget, instruction, counted,
  turn,
}
use cubelang.Vm.Step.Core.Handlers.{KeepsOp, core-data_op}
use cubelang.Vm.Step.Moves.{IsTurn, IsTurn-after}
use cubelang.Vm.Step.Called.{Here-ask, Here-call_op}

module _ (host : Host) where
  open host.floats use {F}

  -- An opcode that jumps: JMP, or COND where the last comparison failed.
  abbrev pub Taken : ℕ → Bool → Type 0
  Taken op flag = (op ≡ Op.jmp) ⊎ ((op ≡ Op.cond) × (flag ≡ false))

  -- Locals at the label that the jumping instruction under `l.pc` names.
  abbrev pub Jumped : CompiledFunction → Dict Hash ℕ → Locals → Locals → Type 0
  Jumped func labels l l1 =
      (op : ℕ) × (os : List (Operand F)) × (width : ℕ) × (fetch host.floats
          (drop l.pc func.bytecode)
        ≡ fetched op os width)
      × Taken op l.flag
      × (target_of host os labels ≡ some l1.pc)

  module _ (Place : Locals → Type 0) (l : Locals) (vm : Vm F) where
    abbrev Here : Turn F → Type 0
    Here t = IsTurn host Place l.pc l.jump_budget vm t

    -- Every target of the operands is a place to jump to.
    abbrev Reaches : List (Operand F) → Dict Hash ℕ → Type 0
    Reaches os labels = (l1 : Locals) → target_of host os labels ≡ some l1.pc → Place l1

    Here-compare : (os : List (Operand F)) → Here (compare host os l vm)
    unfolding compare
    Here-compare os = (refl, inl (omega arith, refl))

    Here-jump :
        (os : List (Operand F)) (labels : Dict Hash ℕ)
        → Reaches os labels
        → Here (jump host os labels l vm)
    unfolding jump
    Here-jump os labels reaches = elim (Option-cases (target_of host os labels)) [
      | inl unknown ↦ ground arith
      | inr (target, known) ↦
          ground (arith, reaches (record l { pc = target; jump_budget = l.jump_budget - 1 }) known)
    ]

    Here-cond :
        (os : List (Operand F)) (labels : Dict Hash ℕ)
        → (l.flag ≡ false → Reaches os labels)
        → Here (cond host os labels l vm)
    unfolding cond
    Here-cond os labels reaches = elim (Bool-cases l.flag) [
      | inl holds ↦ ground arith
      | inr fails ↦ ground (arith, Here-jump os labels (reaches fails))
    ]

    Here-return_op : (os : List (Operand F)) → Here (return_op host os vm)
    unfolding return_op
    Here-return_op [] = refl
    Here-return_op (o ∷ os) = refl

    choose : (b : Bool) (x y : Turn F) → (b ≡ true → Here x) → Here y → Here (if b then x else y)
    choose true x y p q = p refl
    choose false x y p q = q

    Here-control_op :
        (op : ℕ) (os : List (Operand F)) (func : CompiledFunction) (labels : Dict Hash ℕ)
        → (Taken op l.flag → Reaches os labels)
        → Here (control_op host op os func labels l vm)
    unfolding control_op
    Here-control_op op os func labels reaches =
        choose (op == Op.compare) _ _ (λ e. Here-compare os)
          (choose (op == Op.jmp) _ _
            (λ e. Here-jump os labels (reaches (inl ((==_iff op Op.jmp).0 e))))
            (choose (op == Op.cond) _ _
              (λ e. Here-cond os labels (λ no. reaches (inr ((==_iff op Op.cond).0 e, no))))
              (choose (op == Op.return) _ _ (λ e. Here-return_op os)
                (choose (op == Op.call) _ _ (λ e. Here-call_op host Place l vm os)
                  (choose (op == Op.ask) _ _ (λ e. Here-ask host Place l vm os func) refl)))))

    Here-execute :
        (op : ℕ) (os : List (Operand F)) (func : CompiledFunction) (labels : Dict Hash ℕ)
        → (Taken op l.flag → Reaches os labels)
        → Here (execute host op os func labels l vm)
    unfolding execute
    Here-execute op os func labels reaches = go (data_op host op os vm) (core-data_op host op os vm)
      where
        go :
            (o : Option (Effect F))
            → KeepsOp host vm o
            → Here (elim o [
              | some e ↦ after host l vm e
              | none ↦ control_op host op os func labels l vm
            ])
        go (some e) kept = IsTurn-after host Place l vm e kept
        go none kept = Here-control_op op os func labels reaches

  IsTurn-weaken :
      (Place : Locals → Type 0) (p q budget : ℕ) (vm : Vm F) (t : Turn F)
      → p ≤ q
      → IsTurn host Place q budget vm t
      → IsTurn host Place p budget vm t
  IsTurn-weaken Place p q budget vm (next l vm1) le h = (h.0, ground arith)
  IsTurn-weaken Place p q budget vm (stop r vm1) le h = h
  IsTurn-weaken Place p q budget vm (call f args l vm1) le h = (h.0, ground arith, h.2, h.3)
  IsTurn-weaken Place p q budget vm panic le h = tt

  fetched-width :
      (bs : List ℕ) (op : ℕ) (os : List (Operand F)) (width : ℕ)
      → fetch host.floats bs ≡ fetched op os width
      → 1 ≤ width
  unfolding fetch
  fetched-width [] op os width e = ground arith
  fetched-width (o ∷ []) op os width e = elim (Bool-cases (o == Op.skip)) [
    | inl s ↦ ground (arith, fetch-skip host.floats o [] s)
    | inr s ↦ ground (arith, fetch_truncated host.floats o s)
  ]
  fetched-width (o ∷ n ∷ bs) op os width e = elim (Bool-cases (o == Op.skip)) [
    | inl s ↦ ground (arith, fetch-skip host.floats o (n ∷ bs) s)
    | inr s ↦ ground (arith, fetch_instr host.floats o n bs s)
  ]

  IsTurn-instruction :
      (func : CompiledFunction) (labels : Dict Hash ℕ) (l : Locals) (vm : Vm F)
      → IsTurn host
          (Jumped func labels l)
          (suc l.pc)
          l.jump_budget
          vm
          (instruction host (fetch host.floats (drop l.pc func.bytecode)) func labels l vm)
  unfolding instruction
  IsTurn-instruction func labels l vm = go (fetch host.floats (drop l.pc func.bytecode)) refl
    where
      go :
          (i : Fetched F)
          → fetch host.floats (drop l.pc func.bytecode) ≡ i
          → IsTurn host
              (Jumped func labels l)
              (suc l.pc)
              l.jump_budget
              vm
              (instruction host i func labels l vm)
      go ended e = refl
      go truncated e = refl
      go skipped e = (refl, inl (omega arith, refl))
      go (fetched op os width) e =
          IsTurn-weaken (Jumped func labels l) (suc l.pc) (l.pc + width) l.jump_budget vm _
            (omega (arith, fetched-width (drop l.pc func.bytecode) op os width e))
            (Here-execute (Jumped func labels l) (record l { pc = l.pc + width }) vm op os func
              labels (λ taken l1 target. (op, os, width, e, taken, target)))

  -- A turn keeps the core; where it goes on or calls, it has moved past its position with the jump
  -- budget kept, or has less of the budget and stands at the label named by the instruction it was at,
  -- which is a JMP, or a COND with the flag unset; and where it calls, the function is a loaded
  -- program's and the call depth is below 64.
  pub turn-IsTurn :
      (func : CompiledFunction) (labels : Dict Hash ℕ) (l : Locals) (vm : Vm F)
      → IsTurn host (Jumped func labels l) (suc l.pc) l.jump_budget vm (turn host func labels l vm)
  unfolding turn
  turn-IsTurn func labels l vm =
      elim (ltb l.pc (length func.bytecode))
        as (λ b. IsTurn host (Jumped func labels l) (suc l.pc) l.jump_budget vm (
          if b
          then elim (over_budget host (counted host vm)) [
            | some e ↦ stop (error e) (counted host vm)
            | none ↦
                instruction host (fetch host.floats (drop l.pc func.bytecode)) func labels l
                  (counted host vm)
          ]
          else stop (ok vm.accumulator) vm)) [
            | true ↦
                elim (over_budget host (counted host vm))
                  as (λ o. IsTurn host (Jumped func labels l) (suc l.pc) l.jump_budget vm (elim o [
                    | some e ↦ stop (error e) (counted host vm)
                    | none ↦
                        instruction host (fetch host.floats (drop l.pc func.bytecode)) func labels l
                          (counted host vm)
                  ])) [ none ↦ IsTurn-instruction func labels l (counted host vm) | some e ↦ refl ]
            | false ↦ refl
          ]

  -- Past its code a function stops.
  pub turn_past :
      (func : CompiledFunction) (labels : Dict Hash ℕ) (l : Locals) (vm : Vm F)
      → ltb l.pc (length func.bytecode) ≡ false
      → turn host func labels l vm ≡ stop (ok vm.accumulator) vm
  unfolding turn
  turn_past func labels l vm h = rw (h, turn) refl
