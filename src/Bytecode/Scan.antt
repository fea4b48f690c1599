-- ===== src/Bytecode/Scan.antt =====
-- Instructions as the VM reads them, and the label pre-scan (src/vm/engine.rs: the head of the loop
-- of `exec_function`, `scan_labels`). The fuel of the scan is the number of bytes.
use cubelang.Base.{
  ℕ, zero, suc, ◌+◌, List, [], ◌∷◌, Option, none, some, ◌==◌, if◌then◌else◌, length, drop, ◌≤◌, ◌≡◌,
  refl, arith, Bool-cases, inl, inr, length-drop, true, false,
}
use cubelang.Base.Dict.{Dict, insert}
use cubelang.Base.Equal.{pair_equal}
use cubelang.Bytecode.Float.{FloatOps}
use cubelang.Bytecode.Op
use cubelang.Bytecode.Operand.{Operand, Hash, read_operands, label_key}

-- What stands at a position: no byte, `SKIP`, an opcode with no operand count behind it, or an
-- instruction with its operands and its width in bytes.
pub data Fetched (F : Type 0) : Type 0 where
  ended skipped truncated : Fetched F
  fetched : ℕ → List (Operand F) → ℕ → Fetched F

module _ (fl : FloatOps) where
  open fl use {F}

  fetch_operands : ℕ → List ℕ → Fetched F
  fetch_operands op [] = truncated
  fetch_operands op (n ∷ bs) = let (os, k) = read_operands fl n bs in fetched op os (k + 2)

  unfoldable pub fetch : List ℕ → Fetched F
  unfolding fetch_operands
  fetch [] = ended
  fetch (op ∷ bs) = if op == Op.skip then skipped else fetch_operands op bs

  unfoldable pub first_key : List (Operand F) → Option Hash
  first_key [] = none
  first_key (o ∷ _) = label_key fl o

  -- A label at `pc` is entered in the map; a later label of the same hash replaces it.
  unfoldable pub note_label : ℕ → List (Operand F) → ℕ → Dict Hash ℕ → Dict Hash ℕ
  unfolding first_key
  note_label op os pc m =
      if op == Op.label then elim (first_key os) [ none ↦ m | some k ↦ insert k pc m ] else m

  unfoldable pub scan_from : ℕ → List ℕ → ℕ → Dict Hash ℕ → Dict Hash ℕ
  scan_from zero bs pc m = m
  scan_from (suc f) bs pc m = elim (fetch bs) [
    | ended ↦ m
    | truncated ↦ m
    | skipped ↦ scan_from f (drop 1 bs) (pc + 1) m
    | fetched op os w ↦ scan_from f (drop w bs) (pc + w) (note_label op os pc m)
  ]

  unfoldable pub scan_labels : List ℕ → Dict Hash ℕ
  unfolding scan_from
  scan_labels bc = scan_from (length bc) bc 0 []

  pub fetch-skip : (op : ℕ) (bs : List ℕ) → (op == Op.skip) ≡ true → fetch (op ∷ bs) ≡ skipped
  unfolding fetch
  fetch-skip op bs h = rw h

  pub fetch_truncated : (op : ℕ) → (op == Op.skip) ≡ false → fetch (op ∷ []) ≡ truncated
  unfolding fetch
  fetch_truncated op h = rw h

  pub fetch_instr :
      (op n : ℕ) (bs : List ℕ)
      → (op == Op.skip) ≡ false
      → fetch (op ∷ n ∷ bs) ≡ fetched op (read_operands fl n bs).0 ((read_operands fl n bs).1 + 2)
  unfolding fetch
  fetch_instr op n bs h = rw h

  module _ (f : ℕ) (bs : List ℕ) (pc : ℕ) (m : Dict Hash ℕ) where
    pub scan_from_skipped :
        fetch bs ≡ skipped → scan_from (suc f) bs pc m ≡ scan_from f (drop 1 bs) (pc + 1) m
    unfolding scan_from
    scan_from_skipped h = rw (h, scan_from)

    pub scan_from_truncated : fetch bs ≡ truncated → scan_from (suc f) bs pc m ≡ m
    unfolding scan_from
    scan_from_truncated h = rw (h, scan_from)

    pub scan_from_fetched :
        (op : ℕ) (os : List (Operand F)) (w : ℕ)
        → fetch bs ≡ fetched op os w
        → scan_from (suc f) bs pc m ≡ scan_from f (drop w bs) (pc + w) (note_label op os pc m)
    unfolding scan_from
    scan_from_fetched op os w h = rw (h, scan_from)

  pub scan_from_ended : (f : ℕ) (pc : ℕ) (m : Dict Hash ℕ) → scan_from f [] pc m ≡ m
  unfolding scan_from fetch
  scan_from_ended zero pc m = refl
  scan_from_ended (suc f) pc m = refl

  -- A scan step by step, without a fuel: what it makes of the labels noted so far, from a position.
  pub data Scans : List ℕ → ℕ → Dict Hash ℕ → Dict Hash ℕ → Type 0 where
    at_end : {bs : List ℕ} {pc : ℕ} {m : Dict Hash ℕ} → fetch bs ≡ ended → Scans bs pc m m
    at_cut : {bs : List ℕ} {pc : ℕ} {m : Dict Hash ℕ} → fetch bs ≡ truncated → Scans bs pc m m
    past_skip :
        {bs : List ℕ} {pc : ℕ} {m out : Dict Hash ℕ}
        → fetch bs ≡ skipped
        → Scans (drop 1 bs) (pc + 1) m out
        → Scans bs pc m out
    past_instr :
        {bs : List ℕ} {pc : ℕ} {m out : Dict Hash ℕ} {op : ℕ} {os : List (Operand F)} {w : ℕ}
        → fetch bs ≡ fetched op os w
        → Scans (drop w bs) (pc + w) (note_label op os pc m) out
        → Scans bs pc m out

  fetch_nothing : fetch [] ≡ ended
  unfolding fetch
  fetch_nothing = refl

  scan_from-Scans :
      (f : ℕ) (bs : List ℕ) (pc : ℕ) (m : Dict Hash ℕ)
      → length bs ≤ f
      → Scans bs pc m (scan_from f bs pc m)
  scan_from-Scans f [] pc m le = rw (scan_from_ended f pc m) (at_end fetch_nothing)
  scan_from-Scans zero (op ∷ bs) pc m le = absurd (omega arith)
  scan_from-Scans (suc f) (op ∷ []) pc m le = elim (Bool-cases (op == Op.skip)) [
    | inl e ↦
        let s = fetch-skip op [] e in
        rw (scan_from_skipped f (op ∷ []) pc m s)
          (past_skip s (scan_from-Scans f [] (pc + 1) m (omega arith)))
    | inr e ↦ let s = fetch_truncated op e in rw (scan_from_truncated f (op ∷ []) pc m s) (at_cut s)
  ]
  scan_from-Scans (suc f) (op ∷ n ∷ bs) pc m le = elim (Bool-cases (op == Op.skip)) [
    | inl e ↦
        let s = fetch-skip op (n ∷ bs) e in
        rw (scan_from_skipped f (op ∷ n ∷ bs) pc m s)
          (past_skip s (scan_from-Scans f (n ∷ bs) (pc + 1) m (omega arith)))
    | inr e ↦
        let s = fetch_instr op n bs e in
        let os = (read_operands fl n bs).0 in
        let w = (read_operands fl n bs).1 + 2 in
        let shorter = length-drop w (op ∷ n ∷ bs) in
        rw (scan_from_fetched f (op ∷ n ∷ bs) pc m op os w s) (
          past_instr s (
            scan_from-Scans f (drop w (op ∷ n ∷ bs)) (pc + w) (note_label op os pc m)
              (omega arith)))
  ]

  -- The scan of any bytes ends: finitely many steps, each past the instruction that it read, lead
  -- from the start of the code to its end or to an opcode that is cut off, and the map is theirs.
  pub scan_labels-Scans : (bc : List ℕ) → Scans bc 0 [] (scan_labels bc)
  unfolding scan_labels
  scan_labels-Scans bc = scan_from-Scans (length bc) bc 0 [] (le_refl (length bc))
    where
      le_refl : (n : ℕ) → n ≤ n
      le_refl n = omega arith
