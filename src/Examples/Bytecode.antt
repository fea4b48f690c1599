-- ===== src/Examples/Bytecode.antt =====
-- Runs of the bytecode's theorems: a small loop body with a label, a comparison and a jump.
use cubelang.Base.{some, none, List, [], ◌∷◌, ◌++◌, ◌≡◌, refl, length, All, true, Bool, arith}
use cubelang.Base.Int.{pos, negsuc, le_bytes}
use cubelang.Base.Dict.{insert, lookup}
use cubelang.Base.Equal.{pair_equal}
use cubelang.Bytecode.Op
use cubelang.Bytecode.Operand.{
  Operand, named, imm, global, float_imm, encode_operand, decode_operand, label_key, read_operands,
}
use cubelang.Bytecode.RoundTrip.{
  IsEncodable, decode_operand-encode_operand, encode_operands, read_operands-encode_operands,
}
use cubelang.Bytecode.Scan.{Scans, scan_labels, scan_labels-Scans, note_label}
use cubelang.Bytecode.Code.{
  Instr, skip, instr, code, encode_instr, IsInstr, labels_from, label_offset, scan_labels-code,
}
use cubelang.Examples.Parameters.{two_floats}

abbrev operands : List (Operand Bool)
operands = named (1, 2) ∷ imm (negsuc 4) ∷ float_imm true ∷ []

abbrev body : List (Instr Bool)
body =
    instr Op.label (global (7, 8) ∷ [])
    ∷ skip
    ∷ instr Op.compare (named (1, 2) ∷ imm (pos 3) ∷ imm (pos 0) ∷ [])
    ∷ instr Op.label (global (9, 9) ∷ [])
    ∷ instr Op.jmp (global (7, 8) ∷ [])
    ∷ []

operands-IsEncodable : All (IsEncodable two_floats) operands
operands-IsEncodable = (tt, (omega arith, (tt, tt)))

body-IsInstr : All (IsInstr two_floats) body
body-IsInstr = (
  (ground arith, omega arith, (tt, tt)),
  (
    tt,
    (
      (ground arith, omega arith, (tt, (omega arith, (omega arith, tt)))),
      ((ground arith, omega arith, (tt, tt)), ((ground arith, omega arith, (tt, tt)), tt)),
    ),
  ),
)

decode_operand-encode_operand_example :
    decode_operand two_floats (encode_operand two_floats (imm (negsuc 4)) ++ 0 ∷ [])
    ≡ (imm (negsuc 4), length (encode_operand two_floats (imm (negsuc 4))))
decode_operand-encode_operand_example =
    decode_operand-encode_operand two_floats (imm (negsuc 4)) (0 ∷ []) (omega arith)

read_operands-encode_operands_example :
    read_operands two_floats 3 (encode_operands two_floats operands ++ 255 ∷ [])
    ≡ (operands, length (encode_operands two_floats operands))
read_operands-encode_operands_example =
    read_operands-encode_operands two_floats operands (255 ∷ []) operands-IsEncodable

scan_labels-Scans_example :
    Scans two_floats (21 ∷ 1 ∷ 255 ∷ []) 0 [] (scan_labels two_floats (21 ∷ 1 ∷ 255 ∷ []))
scan_labels-Scans_example = scan_labels-Scans two_floats (21 ∷ 1 ∷ 255 ∷ [])

scan_labels-code_example :
    lookup (9, 9) (scan_labels two_floats (code two_floats body))
    ≡ label_offset two_floats (9, 9) body 0
scan_labels-code_example = scan_labels-code two_floats body (9, 9) body-IsInstr

-- The second label stands at the offset 29, and there is no other.
second_label : label_offset two_floats (9, 9) body 0 ≡ some 29
unfolding encode_instr encode_operands le_bytes
second_label = refl

third_label : label_offset two_floats (1, 2) body 0 ≡ none
unfolding encode_instr encode_operands le_bytes
third_label = refl

-- The two labels stand at the offsets 0 and 29.
labels_of_body : labels_from two_floats body 0 [] ≡ ((7, 8), 0) ∷ ((9, 9), 29) ∷ []
unfolding labels_from note_label label_key insert encode_instr encode_operands le_bytes
labels_of_body = refl
