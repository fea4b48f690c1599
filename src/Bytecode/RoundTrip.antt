-- ===== src/Bytecode/RoundTrip.antt =====
-- What the compiler emits for operands, the VM decodes.
use cubelang.Base.{
  ℕ, suc, ◌+◌, ◌<◌, ◌≤◌, ◌^◌, List, [], ◌∷◌, ◌++◌, ◌≡◌, refl, ap, ◌∙◌, append_assoc, arith, length,
  take, drop, All, drop-append, length-append, le→leb,
}
use cubelang.Base.Int.{
  ℤ, IsI64, to_u64, to_u64-lt, from_u64, from_u64-to_u64, le_bytes, from_le, from_le-le_bytes,
}
use cubelang.Bytecode.Float.{FloatOps}
use cubelang.Bytecode.Operand.{
  Operand, named, imm, float_imm, type_, role, global, no_operand, encode_operand, decode_operand,
  word_operand, read_operands,
}

module _ (fl : FloatOps) where
  open fl use {F, to_bits, from_bits, to_bits-lt, from_bits-to_bits}

  -- An immediate is an `i64`; the other operands are always in range.
  abbrev pub IsEncodable : Operand F → Type 0
  IsEncodable (imm n) = IsI64 n
  IsEncodable _ = Unit

  word_operand_full :
      (make : ℕ → Operand F) (bs : List ℕ)
      → 8 ≤ length bs
      → word_operand fl make bs ≡ (make (from_le (take 8 bs)), 9)
  unfolding word_operand
  word_operand_full make bs h = rw (le→leb 8 (length bs) h)

  word_operand-append :
      (make : ℕ → Operand F) (n : ℕ) (rest : List ℕ)
      → n < 2 ^ 64
      → word_operand fl make (le_bytes 8 n ++ rest) ≡ (make n, 9)
  unfolding le_bytes
  word_operand-append make n rest h =
      word_operand_full make (le_bytes 8 n ++ rest) (omega arith)
      ∙ ap (λ (m : ℕ). (make m, 9)) (from_le-le_bytes 8 n h)

  imm_path :
      (n : ℤ)
      → IsI64 n
      → ◌≡◌ {A = Operand F × ℕ}
          (imm (from_u64 (to_u64 n)), 9)
          (imm n, suc (length (le_bytes 8 (to_u64 n))))
  unfolding le_bytes
  imm_path n h = ap (λ (m : ℤ). (imm m, 9)) (from_u64-to_u64 n h)

  float_path :
      (x : F)
      → ◌≡◌ {A = Operand F × ℕ}
          (float_imm (from_bits (to_bits x)), 9)
          (float_imm x, suc (length (le_bytes 8 (to_bits x))))
  unfolding le_bytes
  float_path x = ap (λ (y : F). (float_imm y, 9)) (from_bits-to_bits x)

  -- An emitted operand, with any bytes behind it, decodes to itself and to its length.
  pub decode_operand-encode_operand :
      (o : Operand F) (rest : List ℕ)
      → IsEncodable o
      → decode_operand fl (encode_operand fl o ++ rest) ≡ (o, length (encode_operand fl o))
  unfolding encode_operand decode_operand
  decode_operand-encode_operand (named (a, b)) rest h = refl
  decode_operand-encode_operand (imm n) rest h =
      word_operand-append (λ m. imm (from_u64 m)) (to_u64 n) rest (to_u64-lt n) ∙ imm_path n h
  decode_operand-encode_operand (float_imm x) rest h =
      word_operand-append (λ m. float_imm (from_bits m)) (to_bits x) rest (to_bits-lt x)
      ∙ float_path x
  decode_operand-encode_operand (type_ (a, b)) rest h = refl
  decode_operand-encode_operand (role (a, b)) rest h = refl
  decode_operand-encode_operand (global (a, b)) rest h = refl
  decode_operand-encode_operand no_operand rest h = refl

  unfoldable pub encode_operands : List (Operand F) → List ℕ
  unfolding encode_operand
  encode_operands [] = []
  encode_operands (o ∷ os) = encode_operand fl o ++ encode_operands os

  encode_operand_cons :
      (o : Operand F) (rest : List ℕ)
      → (b : ℕ) × (bs : List ℕ) × (encode_operand fl o ++ rest ≡ b ∷ bs)
  unfolding encode_operand
  encode_operand_cons (named (a, b)) rest = (_, _, refl)
  encode_operand_cons (imm n) rest = (_, _, refl)
  encode_operand_cons (float_imm x) rest = (_, _, refl)
  encode_operand_cons (type_ (a, b)) rest = (_, _, refl)
  encode_operand_cons (role (a, b)) rest = (_, _, refl)
  encode_operand_cons (global (a, b)) rest = (_, _, refl)
  encode_operand_cons no_operand rest = (_, _, refl)

  -- One step of the operand loop, where bytes are left.
  read_step :
      (n : ℕ) (bs : List ℕ)
      → ((b : ℕ) × (tl : List ℕ) × (bs ≡ b ∷ tl))
      → read_operands fl (suc n) bs ≡ (
        (decode_operand fl bs).0 ∷ (read_operands fl n (drop (decode_operand fl bs).1 bs)).0,
        (decode_operand fl bs).1 + (read_operands fl n (drop (decode_operand fl bs).1 bs)).1,
      )
  unfolding read_operands
  read_step n bs (b, tl, e) = rw e refl

  -- A list of emitted operands decodes to itself, and the loop stops where it ends.
  pub read_operands-encode_operands :
      (os : List (Operand F)) (rest : List ℕ)
      → All IsEncodable os
      → read_operands fl (length os) (encode_operands os ++ rest)
        ≡ (os, length (encode_operands os))
  unfolding encode_operands read_operands
  read_operands-encode_operands [] rest h = refl
  read_operands-encode_operands (o ∷ os) rest h =
      rw (append_assoc (encode_operand fl o) (encode_operands os) rest) (
        rw (
          read_step (length os) (encode_operand fl o ++ (encode_operands os ++ rest))
              (encode_operand_cons o (encode_operands os ++ rest)),
          decode_operand-encode_operand o (encode_operands os ++ rest) h.0,
          drop-append (encode_operand fl o) (encode_operands os ++ rest),
          read_operands-encode_operands os rest h.1,
          length-append,
        ))
