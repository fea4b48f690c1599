-- ===== src/Vm/Data/Dispatch.antt =====
-- The arms of the opcode match of `exec_function` that touch no local (src/vm/engine.rs).
use cubelang.Base.{ℕ, ◌==◌, List, [], ◌∷◌, Option, none, some, if◌then◌else◌, any}
use cubelang.Base.Equal.{list_equal, pair_equal}
use cubelang.Bytecode.Op
use cubelang.Bytecode.Operand.{Operand}
use cubelang.Vm.Value.{plus, minus, times}
use cubelang.Vm.State.{Host, Vm}
use cubelang.Vm.Data
use cubelang.Vm.Data.{Effect, goes, fails, panics, put}

module _ (host : Host) where
  open host.floats use {F}

  abbrev pub structural_ops : List ℕ
  structural_ops =
      Op.label ∷ Op.loop ∷ Op.unify ∷ Op.inst ∷ Op.gen ∷ Op.seq ∷ Op.diff ∷ Op.detect_pattern
      ∷ Op.predict ∷ Op.match ∷ Op.debate ∷ Op.discover ∷ Op.decode ∷ Op.score ∷ Op.specialize
      ∷ Op.reward ∷ Op.infer ∷ Op.merge ∷ Op.split ∷ Op.filter ∷ Op.map_roles ∷ Op.reduce
      ∷ Op.temporal_bind ∷ Op.analogy ∷ Op.broadcast ∷ Op.explore ∷ Op.forge ∷ Op.sync ∷ []

  -- The arms that touch no local of the interpreter; `none` for the other opcodes.
  unfoldable pub data_op : ℕ → List (Operand F) → Vm F → Option (Effect F)
  data_op op os vm =
      if op == Op.create
      then some (Data.create host os vm)
      else if op == Op.make_array
      then some (Data.make_array host os vm)
      else if op == Op.len
      then some (Data.len host os vm)
      else if op == Op.index
      then some (Data.index host os vm)
      else if op == Op.set_index
      then some (Data.set_index host os vm)
      else if op == Op.assign
      then some (Data.assign host os vm)
      else if op == Op.add
      then some (Data.binop host plus os vm)
      else if op == Op.sub
      then some (Data.binop host minus os vm)
      else if op == Op.mul
      then some (Data.binop host times os vm)
      else if op == Op.div
      then some (Data.div host os vm)
      else if op == Op.sum
      then some (Data.sum host os vm)
      else if op == Op.push
      then some (Data.push host os vm)
      else if op == Op.pop
      then some (Data.pop host os vm)
      else if op == Op.query
      then some (Data.query host os vm)
      else if op == Op.remember
      then some (Data.remember host os vm)
      else if op == Op.store
      then some (Data.store host os vm)
      else if op == Op.recall
      then some (Data.recall host os vm)
      else if op == Op.forget
      then some (Data.forget host os vm)
      else if op == Op.bind_role
      then some (Data.bind_role host os vm)
      else if op == Op.destroy
      then some (Data.destroy host os vm)
      else if op == Op.copy
      then some (Data.copy host os vm)
      else if op == Op.transfer
      then some (Data.transfer host os vm)
      else if op == Op.unbind
      then some (Data.unbind host os vm)
      else if op == Op.newvar
      then some (Data.newvar host os vm)
      else if any (λ o. o == op) structural_ops
      then some (goes vm)
      else none
