-- ===== src/Bytecode/Code.antt =====
-- Code as a list of instructions, and its bytes.
use cubelang.Base.{
  Bool, true, false, ◌&&◌, ◌==◌, if◌then◌else◌, Option, some, none, ℕ, zero, suc, ◌+◌, ◌<◌, ◌%◌,
  ◌≤◌, drop-append, length-append, ap, ◌∙◌, List, [], ◌∷◌, ◌++◌, ◌≡◌, ◌≢◌, refl, arith, length, All,
}
use cubelang.Bytecode.Float.{FloatOps}
use cubelang.Bytecode.Op
use cubelang.Bytecode.Operand.{Operand, Hash, global, named, label_key}
use cubelang.Base.Equal.{◌=?◌, pair_equal}
use native.Mathlib.Nat.{mod-eq_of_lt}
use cubelang.Base.Dict.{Dict, lookup, lookup-insert}
use cubelang.Bytecode.Scan.{
  first_key, fetch, fetched, fetch_instr, fetch-skip, note_label, scan_from, scan_labels,
  scan_from_ended, scan_from_skipped, scan_from_fetched,
}
use cubelang.Bytecode.RoundTrip.{IsEncodable, encode_operands, read_operands-encode_operands}

abbrev pub or_else : Option ℕ → Option ℕ → Option ℕ
or_else (some p) later = some p
or_else none later = later

or_else-none : (o : Option ℕ) → or_else o none ≡ o
or_else-none none = refl
or_else-none (some p) = refl

pub data Instr (F : Type 0) : Type 0 where
  skip : Instr F
  instr : ℕ → List (Operand F) → Instr F

module _ (fl : FloatOps) where
  open fl use {F}

  -- `emit_byte(opcode)`, `emit_byte(operand count)`, then the operands.
  unfoldable pub encode_instr : Instr F → List ℕ
  encode_instr skip = Op.skip ∷ []
  encode_instr (instr op os) = op ∷ length os % 256 ∷ encode_operands fl os

  unfoldable pub code : List (Instr F) → List ℕ
  unfolding encode_instr
  code [] = []
  code (i ∷ is) = encode_instr i ++ code is

  abbrev pub IsInstr : Instr F → Type 0
  IsInstr skip = Unit
  IsInstr (instr op os) = (op ≢ Op.skip) × (length os < 256) × All (IsEncodable fl) os

  pub length-encode_instr :
      (op : ℕ) (os : List (Operand F))
      → length (encode_instr (instr op os)) ≡ length (encode_operands fl os) + 2
  unfolding encode_instr
  length-encode_instr op os = omega arith

  -- The labels of the code by the offsets of its instructions.
  unfoldable pub labels_from : List (Instr F) → ℕ → Dict Hash ℕ → Dict Hash ℕ
  labels_from [] pc m = m
  labels_from (skip ∷ is) pc m = labels_from is (pc + 1) m
  labels_from (instr op os ∷ is) pc m =
      labels_from is (pc + length (encode_instr (instr op os))) (note_label fl op os pc m)

  fetch-code :
      (op : ℕ) (os : List (Operand F)) (rest : List ℕ)
      → IsInstr (instr op os)
      → fetch fl (encode_instr (instr op os) ++ rest)
        ≡ fetched op os (length (encode_instr (instr op os)))
  unfolding encode_instr
  fetch-code op os rest (ne, lt, enc) =
      rw
        (
          fetch_instr fl op (length os % 256) (encode_operands fl os ++ rest) (ground arith),
          mod-eq_of_lt lt,
          read_operands-encode_operands fl os rest enc,
        )
        (ground arith)

  -- The scan of emitted code finds each label at its instruction's offset, whatever the fuel above
  -- the number of instructions.
  scan_from-code :
      (is : List (Instr F)) (f pc : ℕ) (m : Dict Hash ℕ)
      → All IsInstr is
      → length is ≤ f
      → scan_from fl f (code is) pc m ≡ labels_from is pc m
  unfolding code labels_from
  scan_from-code [] f pc m h le = scan_from_ended fl f pc m
  scan_from-code (i ∷ is) zero pc m h le = absurd (omega arith)
  scan_from-code (skip ∷ is) (suc f) pc m h le =
      scan_from_skipped fl f (Op.skip ∷ code is) pc m (fetch-skip fl Op.skip (code is) refl)
      ∙ scan_from-code is f (pc + 1) m h.1 (omega arith)
  scan_from-code (instr op os ∷ is) (suc f) pc m h le =
      let w = length (encode_instr (instr op os)) in
      scan_from_fetched fl f (encode_instr (instr op os) ++ code is) pc m op os w
        (fetch-code op os (code is) h.0)
      ∙ ap (λ (bs : List ℕ). scan_from fl f bs (pc + w) (note_label fl op os pc m))
          (drop-append (encode_instr (instr op os)) (code is))
      ∙ scan_from-code is f (pc + w) (note_label fl op os pc m) h.1 (omega arith)

  length-code-le : (is : List (Instr F)) → length is ≤ length (code is)
  unfolding code
  length-code-le [] = omega arith
  length-code-le (skip ∷ is) = omega (arith, length-code-le is)
  length-code-le (instr op os ∷ is) =
      omega (arith, length-code-le is, length-append (encode_instr (instr op os)) (code is))

  pub scan_labels-labels_from :
      (is : List (Instr F)) → All IsInstr is → scan_labels fl (code is) ≡ labels_from is 0 []
  unfolding scan_labels
  scan_labels-labels_from is h = scan_from-code is (length (code is)) 0 [] h (length-code-le is)

  -- Whether an instruction is a LABEL that names the hash.
  abbrev pub is_label : Hash → Instr F → Bool
  is_label h (instr op (global k ∷ os)) = (op == Op.label) && (k =? h)
  is_label h (instr op (named k ∷ os)) = (op == Op.label) && (k =? h)
  is_label h _ = false

  -- The offset of the last LABEL that names the hash, in code that starts at an offset.
  abbrev pub label_offset : Hash → List (Instr F) → ℕ → Option ℕ
  label_offset h [] pc = none
  label_offset h (i ∷ is) pc =
      or_else (label_offset h is (pc + length (encode_instr i)))
        (if is_label h i then some pc else none)

  lookup-note_label :
      (h : Hash) (op : ℕ) (os : List (Operand F)) (pc : ℕ) (m : Dict Hash ℕ)
      → lookup h (note_label fl op os pc m)
        ≡ (if is_label h (instr op os) then some pc else lookup h m)
  unfolding note_label first_key label_key
  lookup-note_label h op [] pc m = ground arith
  lookup-note_label h op (global k ∷ os) pc m = ground (arith, lookup-insert k h pc m)
  lookup-note_label h op (named k ∷ os) pc m = ground (arith, lookup-insert k h pc m)
  lookup-note_label h op (o ∷ os) pc m = ground arith

  -- A label of an instruction counts where none follows it.
  or_before :
      (later : Option ℕ) (b : Bool) (pc : ℕ) (old : Option ℕ)
      → or_else later (if b then some pc else old)
        ≡ or_else (or_else later (if b then some pc else none)) old
  or_before none true pc old = refl
  or_before none false pc old = refl
  or_before (some p) b pc old = refl

  lookup-labels_from :
      (h : Hash) (is : List (Instr F)) (pc : ℕ) (m : Dict Hash ℕ)
      → lookup h (labels_from is pc m) ≡ or_else (label_offset h is pc) (lookup h m)
  unfolding labels_from encode_instr
  lookup-labels_from h [] pc m = refl
  lookup-labels_from h (skip ∷ is) pc m =
      lookup-labels_from h is (pc + 1) m
      ∙ or_before (label_offset h is (pc + 1)) false pc (lookup h m)
  lookup-labels_from h (instr op os ∷ is) pc m =
      let next = pc + length (encode_instr (instr op os)) in
      lookup-labels_from h is next (note_label fl op os pc m)
      ∙ ap (λ (o : Option ℕ). or_else (label_offset h is next) o) (lookup-note_label h op os pc m)
      ∙ or_before (label_offset h is next) (is_label h (instr op os)) pc (lookup h m)

  -- The pre-scan of emitted code maps a hash to the byte offset of the last LABEL instruction that
  -- names it, and knows no other hash.
  pub scan_labels-code :
      (is : List (Instr F)) (h : Hash)
      → All IsInstr is
      → lookup h (scan_labels fl (code is)) ≡ label_offset h is 0
  unfolding lookup
  scan_labels-code is h ok =
      rw (scan_labels-labels_from is ok, lookup-labels_from h is 0 [])
        (or_else-none (label_offset h is 0))
