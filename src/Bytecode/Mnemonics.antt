-- ===== src/Bytecode/Mnemonics.antt =====
-- What the mnemonics of `asm` blocks reach of the opcode table (src/compiler.rs:
-- `asm_mnemonic_to_op`).
use cubelang.Base.{
  ℕ, List, [], ◌∷◌, Bool, Bool-cases, true, false, not, ◌||◌, ◌≡◌, ◌≢◌, refl, Option, none, some,
  inl, inr, all, any, ◌==◌, if◌then◌else◌, arith,
}
use cubelang.Base.Equal.{list_equal, list_eq}
use cubelang.Base.Dict.{Dict, lookup}
use cubelang.Base.Text.{Text}
use cubelang.Bytecode.Op.{asm_table, op_table, asm_mnemonic_to_op}
use cubelang.Bytecode.Op

lookup-all :
    (P : ℕ → Bool) (d : Dict Text ℕ) (m : Text) (op : ℕ)
    → all (λ (e : Text × ℕ). P e.1) d ≡ true
    → lookup m d ≡ some op
    → P op ≡ true
unfolding lookup
lookup-all P [] m op h e = ground arith
lookup-all P ((k, v) ∷ d) m op h e = elim (Bool-cases (list_eq k m)) [
  | inl same ↦ ground arith
  | inr diff ↦ lookup-all P d m op (ground arith) (ground arith)
]

-- The first mnemonic of a byte in the table.
abbrev name_of : ℕ → Dict Text ℕ → Text
name_of op [] = []
name_of op ((k, v) ∷ d) = let rest = name_of op d in if v == op then k else rest

abbrev reaches : Option ℕ → ℕ → Bool
reaches (some n) op = n == op
reaches none op = false

all-any :
    (P : ℕ → Bool) (xs : List ℕ) (op : ℕ)
    → all P xs ≡ true
    → any (λ x. x == op) xs ≡ true
    → P op ≡ true
all-any P [] op h e = ground arith
all-any P (x ∷ xs) op h e = elim (Bool-cases (x == op)) [
  | inl same ↦ ground arith
  | inr diff ↦ all-any P xs op (ground arith) (ground arith)
]

reaches-some : (o : Option ℕ) (op : ℕ) → reaches o op ≡ true → o ≡ some op
reaches-some (some n) op h = ground arith
reaches-some none op h = ground arith

absent_test : all (λ (e : Text × ℕ). not (e.1 == Op.set_index)) asm_table ≡ true
absent_test = refl

abbrev named_test : ℕ → Bool
named_test op = (op == Op.set_index) || reaches (asm_mnemonic_to_op (name_of op asm_table)) op

named_tests : all named_test op_table ≡ true
unfolding asm_mnemonic_to_op lookup
named_tests = refl

-- No mnemonic stands for SET_INDEX, and every other opcode of the table has a mnemonic.
pub asm_mnemonic_to_op-op_table :
    ((m : Text) → asm_mnemonic_to_op m ≢ some Op.set_index)
    × ((op : ℕ)
        → any (λ x. x == op) op_table ≡ true
        → op ≢ Op.set_index
        → (m : Text) × (asm_mnemonic_to_op m ≡ some op))
unfolding asm_mnemonic_to_op
asm_mnemonic_to_op-op_table = (
  (λ m e.
      ground (
        arith,
        lookup-all (λ op. not (op == Op.set_index)) asm_table m Op.set_index absent_test e,
      )),
  (λ op member other. (
    name_of op asm_table,
    reaches-some (asm_mnemonic_to_op (name_of op asm_table)) op
        (ground (arith, all-any named_test op_table op named_tests member)),
  )),
)
