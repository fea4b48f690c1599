-- ===== src/Vm/Data.antt =====
-- The opcodes that change values and memory and neither jump, call nor stop a run (src/vm/engine.rs:
-- the arms of the match in `exec_function`). An operand list stands for the operands read.
pub mod Dispatch
use cubelang.Base.{
  ℕ, zero, suc, ◌+◌, ◌==◌, List, [], ◌∷◌, ◌++◌, Bool, true, false, ◌&&◌, Option, none, some, ltb,
  leb, if◌then◌else◌, length, get_elem?, set, ◌⊎◌, inl, inr,
}
use cubelang.Base.Int.{ℤ, pos, pos_part, ◌+ℤ◌, ◌-ℤ◌, eq_ℤ, ltb_ℤ, wrap}
use cubelang.Base.Text.{Text, lit}
use cubelang.Base.Dict.{lookup, insert, remove}
use cubelang.Base.Equal.{list_equal, list_eq}
use cubelang.Bytecode.Operand.{Operand, imm}
use cubelang.Knowledge.{Fact, lookup_facts}
use cubelang.Memory
use cubelang.Vm.Value.{
  Value, int, float, str, null, array, items, of_items, field, no_fields, entries, of_entries,
  as_i64, as_f64, as_str, BinOp, over, num_binop,
}
use cubelang.Vm.State.{
  Host, Vm, VmError, negative_index, not_first_index, past_the_end, not_indexable, division_by_zero,
  query_budget_exhausted, RecoverReason, absent_role,
}
use cubelang.Vm.Resolve.{
  name_at, resolve_symbol_name, register_or, resolve_value, resolve_assign_rhs, register_i64,
  resolve_i64,
}
use cubelang.Vm.Frames.{vsa_bind_into, vsa_unbind_cleanup_known}

-- What an opcode does: it goes on, fails with a message, or panics.
pub data Effect (F : Type 0) : Type 0 where
  goes : Vm F → Effect F
  fails : VmError F → Effect F
  panics : Effect F

module _ (host : Host) where
  open host.floats use {F, from_i64, eq}

  abbrev Handler : Type 0
  Handler = List (Operand F) → Vm F → Effect F

  unfoldable pub put : Text → Value F → Vm F → Vm F
  put name v vm = record vm { registers = insert name v vm.registers }

  abbrev created : Text → Value F
  created ty =
      if list_eq ty (lit "map")
      then Value.map no_fields
      else if list_eq ty (lit "array")
      then array (of_items [])
      else null

  unfoldable pub create : Handler
  create os vm = goes (put (name_at host os 0) (created (name_at host os 1)) vm)

  unfoldable pub elements : ℕ → ℕ → List (Operand F) → Vm F → List (Value F)
  elements zero i os vm = []
  elements (suc n) i os vm =
      resolve_assign_rhs host vm (get_elem? os (2 + i)) ∷ elements n (suc i) os vm

  unfoldable pub element_count : List (Operand F) → ℕ
  element_count os = elim (get_elem? os 1) [
    | some o ↦ elim o [ imm k ↦ pos_part k | _ ↦ 0 ]
    | none ↦ 0
  ]

  unfoldable pub make_array : Handler
  make_array os vm =
      goes (put (name_at host os 0) (array (of_items (elements (element_count os) 0 os vm))) vm)

  abbrev length_of : Value F → ℕ
  length_of (array vs) = length (items vs)
  length_of (str s) = length s
  length_of _ = 0

  unfoldable pub len : Handler
  len os vm = goes (
      put (name_at host os 0) (int (pos (length_of (register_or host null vm (name_at host os 1)))))
        vm)

  abbrev or_null : Option (Value F) → Value F
  or_null (some v) = v
  or_null none = null

  -- An element of an array, or of a map by the key's string; `Null` where there is none.
  unfoldable pub element_of : Value F → Value F → Value F
  element_of (array vs) key =
      let i = as_i64 host.floats key in
      if ltb_ℤ i (pos 0) then null else or_null (get_elem? (items vs) (pos_part i))
  element_of (Value.map fs) key = or_null (lookup (as_str host.floats host.debug key) (entries fs))
  element_of _ key = null

  unfoldable pub index : Handler
  index os vm =
      let key = resolve_value host vm (get_elem? os 2) in
      goes
        (put (name_at host os 0) (element_of (register_or host null vm (name_at host os 1)) key) vm)

  abbrev Updated : Type 0
  Updated = VmError F ⊎ Value F

  unfoldable pub set_element : Text → List (Value F) → ℤ → Value F → VmError F ⊎ Value F
  set_element name vs i val =
      if ltb_ℤ i (pos 0)
      then inl (negative_index i name)
      else if ltb (pos_part i) (length vs)
      then inr (array (of_items (set vs (pos_part i) val)))
      else if pos_part i == length vs
      then inr (array (of_items (vs ++ val ∷ [])))
      else inl (past_the_end (pos_part i) name (length vs))

  -- An unset container is made by the kind of its first key.
  unfoldable pub first_element : Text → Value F → Value F → VmError F ⊎ Value F
  first_element name (str k) val = inr (Value.map (field k val no_fields))
  first_element name key val =
      let i = as_i64 host.floats key in
      if eq_ℤ i (pos 0) then inr (array (of_items (val ∷ []))) else inl (not_first_index i name)

  unfoldable pub updated : Text → Value F → Value F → Value F → VmError F ⊎ Value F
  updated name (Value.map fs) key val =
      inr (Value.map (of_entries (insert (as_str host.floats host.debug key) val (entries fs))))
  updated name (array vs) key val = set_element name (items vs) (as_i64 host.floats key) val
  updated name null key val = first_element name key val
  updated name other key val = inl (not_indexable name other)

  unfoldable pub set_index : Handler
  set_index os vm =
      let name = name_at host os 0 in
      let key = resolve_value host vm (get_elem? os 1) in
      let val = resolve_assign_rhs host vm (get_elem? os 2) in
      elim (updated name (register_or host null vm name) key val) [
        | inl e ↦ fails e
        | inr v ↦ goes (put name v vm)
      ]

  unfoldable pub assign : Handler
  assign os vm = goes (put (name_at host os 0) (resolve_assign_rhs host vm (get_elem? os 1)) vm)

  unfoldable pub binop : BinOp → Handler
  binop op os vm =
      let name = name_at host os 0 in
      elim (num_binop host.floats (register_or host (int (pos 0)) vm name)
        (resolve_value host vm (get_elem? os 1)) op) [
          | none ↦ panics
          | some out ↦ goes (put name out vm)
        ]

  unfoldable pub div : Handler
  div os vm =
      let quotient = binop over os vm in
      if eq (as_f64 host.floats (resolve_value host vm (get_elem? os 1))) (from_i64 (pos 0))
      then fails division_by_zero
      else quotient

  unfoldable pub sum : Handler
  sum os vm = goes (record vm { accumulator = register_or host null vm (name_at host os 0) })

  unfoldable pub push : Handler
  push os vm = goes (record vm { stack = register_or host null vm (name_at host os 0) ∷ vm.stack })

  abbrev popped : List (Value F) → Value F × List (Value F)
  popped [] = (null, [])
  popped (v ∷ vs) = (v, vs)

  unfoldable pub pop : Handler
  pop os vm =
      let (v, rest) = popped vm.stack in
      goes (put (name_at host os 0) v (record vm { stack = rest }))

  unfoldable pub chunk : Fact → Value F
  chunk f = Value.map (
      field (lit "text") (str f.text) (
        field (lit "score") (float (from_i64 (pos 1)))
          (field (lit "source") (str f.source) no_fields)))

  unfoldable pub chunks : List Fact → List (Value F)
  chunks [] = []
  chunks (f ∷ fs) = chunk f ∷ chunks fs

  abbrev text_or : Text → Value F → Text
  text_or default (str s) = s
  text_or default _ = default

  unfoldable pub mention_of : List (Operand F) → Vm F → Text
  mention_of os vm =
      text_or (resolve_symbol_name host vm (get_elem? os 0))
        (register_or host null vm (name_at host os 0))

  unfoldable pub query : Handler
  query os vm =
      let mention = mention_of os vm in
      let found = chunks (lookup_facts host.unicode vm.knowledge mention) in
      if ltb 0 vm.query_budget && leb vm.query_budget (length vm.queried)
      then fails (query_budget_exhausted vm.query_budget)
      else goes (record vm {
        queried = vm.queried ++ (mention, length found) ∷ [];
        stack = array (of_items found) ∷ vm.stack;
      })

  unfoldable pub keep_value : Text → Value F → Vm F → Effect F
  keep_value key val vm = elim (Memory.store host.rng vm.memory key val) [
    | none ↦ panics
    | some m ↦ goes (record vm { memory = m; storage = insert key val vm.storage })
  ]

  unfoldable pub remember : Handler
  remember os vm =
      let name = name_at host os 0 in keep_value name (register_or host null vm name) vm

  unfoldable pub store : Handler
  store os vm = keep_value (name_at host os 1) (register_or host null vm (name_at host os 0)) vm

  abbrev recall_operands : List (Operand F) → Text × Text
  recall_operands os =
      if leb 2 (length os)
      then (name_at host os 0, name_at host os 1)
      else (name_at host os 0, name_at host os 0)

  abbrev recalled : Option (Text × Value F × ℤ) → Value F
  recalled (some (matched, val, sim)) = val
  recalled none = null

  unfoldable pub recall : Handler
  recall os vm =
      let (dest, key) = recall_operands os in
      elim (Memory.recall host.rng vm.memory key) [
        | none ↦ panics
        | some (hit, m) ↦ goes (put dest (recalled hit) (record vm { memory = m }))
      ]

  unfoldable pub forget : Handler
  forget os vm =
      let key = name_at host os 0 in
      goes (record vm { memory = (Memory.forget vm.memory key).1; storage = remove key vm.storage })

  unfoldable pub bind_role : Handler
  bind_role os vm =
      elim (vsa_bind_into host vm (name_at host os 0) (resolve_symbol_name host vm (get_elem? os 1))
        (resolve_symbol_name host vm (get_elem? os 2))) [ none ↦ panics | some vm1 ↦ goes vm1 ]

  abbrev was_absent : Option RecoverReason → Bool
  was_absent (some absent_role) = true
  was_absent _ = false

  unfoldable pub unbind : Handler
  unbind os vm =
      let reg = name_at host os 0 in
      elim (vsa_unbind_cleanup_known host vm reg (resolve_symbol_name host vm (get_elem? os 1))) [
        | none ↦ panics
        | some (hit, vm1) ↦ elim hit [
          | some (sym, sim) ↦ goes (put reg (str sym) vm1)
          | none ↦ goes (if was_absent vm1.last_recover_reason then put reg null vm1 else vm1)
        ]
      ]

  unfoldable pub destroy : Handler
  destroy os vm = goes (record vm { registers = remove (name_at host os 0) vm.registers })

  unfoldable pub copy : Handler
  copy os vm = goes (put (name_at host os 1) (register_or host null vm (name_at host os 0)) vm)

  -- The source is written first: where source and target are one register, the target's value stays.
  unfoldable pub transfer : Handler
  transfer os vm =
      let src = name_at host os 0 in
      let dst = name_at host os 1 in
      let amount = resolve_i64 host vm (get_elem? os 2) in
      let s = register_i64 host vm src in
      let d = register_i64 host vm dst in
      goes (put dst (int (wrap (d +ℤ amount))) (put src (int (wrap (s -ℤ amount))) vm))

  unfoldable pub newvar : Handler
  newvar os vm =
      let name = name_at host os 0 in
      elim (lookup name vm.registers) [ some _ ↦ goes vm | none ↦ goes (put name null vm) ]
