-- ===== src/Vm/Step/Core/Handlers.antt =====
-- The arms that touch no local keep the core (src/vm/engine.rs).
use cubelang.Base.{
  ℕ, ◌==◌, List, Bool, true, false, Option, Option-cases, none, some, refl, inl, inr, if◌then◌else◌,
  get_elem?, any, arith,
}
use cubelang.Base.Equal.{list_equal, pair_equal}
use cubelang.Bytecode.Operand.{Operand}
use cubelang.Vm.Value.{BinOp, plus, minus, times, over}
use cubelang.Vm.State.{Host, Vm}
use cubelang.Vm.Resolve.{resolve_symbol_name, name_at}
use cubelang.Vm.Frames.{vsa_bind_into}
use cubelang.Bytecode.Op
use cubelang.Vm.Data
use cubelang.Vm.Data.{Effect, goes, fails, panics}
use cubelang.Vm.Data.Dispatch.{data_op, structural_ops}
use cubelang.Vm.Step.Core.{KeepsEffect, core-vsa_bind_into, core-vsa_unbind_cleanup_known}

module _ (host : Host) where
  open host.floats use {F}

  core-create : (os : List (Operand F)) (vm : Vm F) → KeepsEffect host vm (Data.create host os vm)
  unfolding Data.create Data.put
  core-create os vm = ground arith

  core-make_array :
      (os : List (Operand F)) (vm : Vm F) → KeepsEffect host vm (Data.make_array host os vm)
  unfolding Data.make_array Data.put
  core-make_array os vm = ground arith

  core-len : (os : List (Operand F)) (vm : Vm F) → KeepsEffect host vm (Data.len host os vm)
  unfolding Data.len Data.put
  core-len os vm = ground arith

  core-index : (os : List (Operand F)) (vm : Vm F) → KeepsEffect host vm (Data.index host os vm)
  unfolding Data.index Data.put
  core-index os vm = ground arith

  core-assign : (os : List (Operand F)) (vm : Vm F) → KeepsEffect host vm (Data.assign host os vm)
  unfolding Data.assign Data.put
  core-assign os vm = ground arith

  core-sum : (os : List (Operand F)) (vm : Vm F) → KeepsEffect host vm (Data.sum host os vm)
  unfolding Data.sum Data.put
  core-sum os vm = ground arith

  core-push : (os : List (Operand F)) (vm : Vm F) → KeepsEffect host vm (Data.push host os vm)
  unfolding Data.push Data.put
  core-push os vm = ground arith

  core-pop : (os : List (Operand F)) (vm : Vm F) → KeepsEffect host vm (Data.pop host os vm)
  unfolding Data.pop Data.put
  core-pop os vm = ground arith

  core-query : (os : List (Operand F)) (vm : Vm F) → KeepsEffect host vm (Data.query host os vm)
  unfolding Data.query Data.put
  core-query os vm = ground arith

  core-remember :
      (os : List (Operand F)) (vm : Vm F) → KeepsEffect host vm (Data.remember host os vm)
  unfolding Data.remember Data.put Data.keep_value
  core-remember os vm = ground arith

  core-store : (os : List (Operand F)) (vm : Vm F) → KeepsEffect host vm (Data.store host os vm)
  unfolding Data.store Data.put Data.keep_value
  core-store os vm = ground arith

  core-recall : (os : List (Operand F)) (vm : Vm F) → KeepsEffect host vm (Data.recall host os vm)
  unfolding Data.recall Data.put
  core-recall os vm = ground arith

  core-forget : (os : List (Operand F)) (vm : Vm F) → KeepsEffect host vm (Data.forget host os vm)
  unfolding Data.forget Data.put
  core-forget os vm = ground arith

  core-destroy : (os : List (Operand F)) (vm : Vm F) → KeepsEffect host vm (Data.destroy host os vm)
  unfolding Data.destroy Data.put
  core-destroy os vm = ground arith

  core-copy : (os : List (Operand F)) (vm : Vm F) → KeepsEffect host vm (Data.copy host os vm)
  unfolding Data.copy Data.put
  core-copy os vm = ground arith

  core-transfer :
      (os : List (Operand F)) (vm : Vm F) → KeepsEffect host vm (Data.transfer host os vm)
  unfolding Data.transfer Data.put
  core-transfer os vm = ground arith

  core-newvar : (os : List (Operand F)) (vm : Vm F) → KeepsEffect host vm (Data.newvar host os vm)
  unfolding Data.newvar Data.put
  core-newvar os vm = ground arith

  core-set_index :
      (os : List (Operand F)) (vm : Vm F) → KeepsEffect host vm (Data.set_index host os vm)
  unfolding Data.set_index Data.put
  core-set_index os vm = ground arith

  core-bind_role :
      (os : List (Operand F)) (vm : Vm F) → KeepsEffect host vm (Data.bind_role host os vm)
  unfolding Data.bind_role Data.put
  core-bind_role os vm =
      elim (Option-cases (
        vsa_bind_into host vm (name_at host os 0) (resolve_symbol_name host vm (get_elem? os 1))
          (resolve_symbol_name host vm (get_elem? os 2)))) [
            | inl bad ↦ ground arith
            | inr (vm1, good) ↦ ground (arith, core-vsa_bind_into host vm _ _ _ vm1 good)
          ]

  core-unbind : (os : List (Operand F)) (vm : Vm F) → KeepsEffect host vm (Data.unbind host os vm)
  unfolding Data.unbind Data.put
  core-unbind os vm = ground (
    arith,
    core-vsa_unbind_cleanup_known host vm (name_at host os 0)
        (resolve_symbol_name host vm (get_elem? os 1)),
  )

  core-binop :
      (op : BinOp) (os : List (Operand F)) (vm : Vm F)
      → KeepsEffect host vm (Data.binop host op os vm)
  unfolding Data.binop Data.put
  core-binop op os vm = ground arith

  core-div : (os : List (Operand F)) (vm : Vm F) → KeepsEffect host vm (Data.div host os vm)
  unfolding Data.div
  core-div os vm = ground (arith, core-binop over os vm)

  abbrev pub KeepsOp : Vm F → Option (Effect F) → Type 0
  KeepsOp vm (some e) = KeepsEffect host vm e
  KeepsOp vm none = Unit

  pick :
      (vm : Vm F) (b : Bool) (x y : Option (Effect F))
      → KeepsOp vm x
      → KeepsOp vm y
      → KeepsOp vm (if b then x else y)
  pick vm true x y p q = p
  pick vm false x y p q = q

  pub core-data_op :
      (op : ℕ) (os : List (Operand F)) (vm : Vm F) → KeepsOp vm (data_op host op os vm)
  unfolding data_op
  core-data_op op os vm = pick vm (op == Op.create) _ _ (core-create os vm) (
      pick vm (op == Op.make_array) _ _ (core-make_array os vm) (
        pick vm (op == Op.len) _ _ (core-len os vm) (
          pick vm (op == Op.index) _ _ (core-index os vm) (
            pick vm (op == Op.set_index) _ _ (core-set_index os vm) (
              pick vm (op == Op.assign) _ _ (core-assign os vm) (
                pick vm (op == Op.add) _ _ (core-binop plus os vm) (
                  pick vm (op == Op.sub) _ _ (core-binop minus os vm) (
                    pick vm (op == Op.mul) _ _ (core-binop times os vm) (
                      pick vm (op == Op.div) _ _ (core-div os vm) (
                        pick vm (op == Op.sum) _ _ (core-sum os vm) (
                          pick vm (op == Op.push) _ _ (core-push os vm) (
                            pick vm (op == Op.pop) _ _ (core-pop os vm) (
                              pick vm (op == Op.query) _ _ (core-query os vm) (
                                pick vm (op == Op.remember) _ _ (core-remember os vm) (
                                  pick vm (op == Op.store) _ _ (core-store os vm) (
                                    pick vm (op == Op.recall) _ _ (core-recall os vm) (
                                      pick vm (op == Op.forget) _ _ (core-forget os vm) (
                                        pick vm (op == Op.bind_role) _ _ (core-bind_role os vm) (
                                          pick vm (op == Op.destroy) _ _ (core-destroy os vm) (
                                            pick vm (op == Op.copy) _ _ (core-copy os vm) (
                                              pick vm (op == Op.transfer) _ _ (core-transfer os vm)
                                                (pick vm (op == Op.unbind) _ _ (core-unbind os vm) (
                                                  pick vm (op == Op.newvar) _ _ (core-newvar os vm)
                                                    (pick vm
                                                      (any (λ o. o == op) (structural_ops host)) _ _
                                                      refl tt))))))))))))))))))))))))
