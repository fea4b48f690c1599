-- ===== src/Vm/Resolve.antt =====
-- How operands become values and names (src/vm/engine.rs: `resolve_*`, `Operand::to_value`).
use cubelang.Base.{ℕ, List, [], ◌++◌, Option, none, some, get_elem?}
use cubelang.Base.Int.{ℤ, pos}
use cubelang.Base.Text.{Text, lit, hex2}
use cubelang.Base.Dict.{lookup}
use cubelang.Base.Equal.{list_equal, pair_equal}
use cubelang.Bytecode.Operand.{Operand, Hash, named, imm, float_imm, role, global, as_name}
use cubelang.Vm.Value.{Value, int, float, str, null, as_i64}
use cubelang.Vm.State.{Host, Vm}

module _ (host : Host) where
  open host.floats use {F, to_i64}

  -- `operands.get(i).map(|o| o.as_name()).unwrap_or_default()`
  unfoldable pub name_at : List (Operand F) → ℕ → Text
  name_at os i = elim (get_elem? os i) [ some o ↦ as_name host.floats o | none ↦ [] ]

  unfoldable pub to_value : Operand F → Value F
  to_value (imm n) = int n
  to_value (float_imm x) = float x
  to_value (named h) = str (as_name host.floats (named h))
  to_value (global h) = str (as_name host.floats (global h))
  to_value _ = null

  unfoldable pub reverse_name : Vm F → Hash → Operand F → Text
  reverse_name vm h o = elim (lookup h vm.name_table) [ some n ↦ n | none ↦ as_name host.floats o ]

  unfoldable pub symbol_name : Vm F → Operand F → Text
  unfolding reverse_name
  symbol_name vm (role h) = reverse_name vm h (role h)
  symbol_name vm (named h) = reverse_name vm h (named h)
  symbol_name vm (global h) = reverse_name vm h (global h)
  symbol_name vm o = as_name host.floats o

  unfoldable pub resolve_symbol_name : Vm F → Option (Operand F) → Text
  resolve_symbol_name vm (some o) = symbol_name vm o
  resolve_symbol_name vm none = []

  unfoldable pub register_or : Value F → Vm F → Text → Value F
  register_or default vm name = elim (lookup name vm.registers) [ some v ↦ v | none ↦ default ]

  -- `resolve_value`: an unset register is `Int(0)`.
  unfoldable pub resolve_value : Vm F → Option (Operand F) → Value F
  resolve_value vm (some (imm n)) = int n
  resolve_value vm (some (float_imm x)) = float x
  resolve_value vm (some (named h)) = register_or (int (pos 0)) vm (as_name host.floats (named h))
  resolve_value vm (some (global h)) = str (symbol_name vm (global h))
  resolve_value vm _ = int (pos 0)

  -- `resolve_assign_rhs`: an unset register is `Null`.
  unfoldable pub resolve_assign_rhs : Vm F → Option (Operand F) → Value F
  resolve_assign_rhs vm (some (imm n)) = int n
  resolve_assign_rhs vm (some (float_imm x)) = float x
  resolve_assign_rhs vm (some (named h)) = register_or null vm (as_name host.floats (named h))
  resolve_assign_rhs vm (some (global h)) = str (symbol_name vm (global h))
  resolve_assign_rhs vm (some o) = to_value o
  resolve_assign_rhs vm none = null

  unfoldable pub resolve_registry_arg : Vm F → Option (Operand F) → Value F
  resolve_registry_arg vm (some (imm n)) = int n
  resolve_registry_arg vm (some (float_imm x)) = float x
  resolve_registry_arg vm (some o) = str (symbol_name vm o)
  resolve_registry_arg vm none = null

  unfoldable pub register_i64 : Vm F → Text → ℤ
  register_i64 vm name = elim (lookup name vm.registers) [
    | some v ↦ as_i64 host.floats v
    | none ↦ pos 0
  ]

  unfoldable pub resolve_i64 : Vm F → Option (Operand F) → ℤ
  resolve_i64 vm (some (imm n)) = n
  resolve_i64 vm (some (float_imm x)) = to_i64 x
  resolve_i64 vm (some o) = register_i64 vm (as_name host.floats o)
  resolve_i64 vm none = pos 0

  -- The register key of a name, as the compiler hashes it.
  unfoldable pub register_key : Text → Text
  register_key name = lit "r_" ++ (hex2 (host.hash name).0 ++ hex2 (host.hash name).1)
