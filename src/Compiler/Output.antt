-- ===== src/Compiler/Output.antt =====
-- What a pass writes: whole instructions, whose jumps have their labels among them.
use cubelang.Base.{
  length, ◌<◌, arith, ℕ, List, [], ◌∷◌, ◌++◌, Bool, false, ◌||◌, Option, none, some, ◌==◌,
  if◌then◌else◌, ◌≡◌, ◌≢◌, refl, sym, ap, ◌∙◌, ◌⊎◌, inl, inr, append_assoc, append-nil, All,
  All-append, All-weaken,
}
use cubelang.Bytecode.Op
use cubelang.Bytecode.Operand.{Operand, Hash, global}
use cubelang.Bytecode.Code.{Instr, skip, instr, encode_instr, code, IsInstr}
use cubelang.Vm.State.{Host}
use cubelang.Bytecode.RoundTrip.{IsEncodable}
use cubelang.Compiler.State.{Compiler}
use cubelang.Compiler.Emit.{Pass}

-- No jump, or a jump to a label that `P` holds of.
abbrev pub OnTarget : (Hash → Type 0) → Option (Option Hash) → Type 0
OnTarget P none = Unit
OnTarget P (some none) = ⊥
OnTarget P (some (some h)) = P h

OnTarget-weaken :
    (P Q : Hash → Type 0) (o : Option (Option Hash))
    → ((h : Hash) → P h → Q h)
    → OnTarget P o
    → OnTarget Q o
OnTarget-weaken P Q none f p = tt
OnTarget-weaken P Q (some none) f p = p
OnTarget-weaken P Q (some (some h)) f p = f h p

abbrev pub is_jump : ℕ → Bool
is_jump op = op == Op.jmp || op == Op.cond

-- Neither SKIP, which has no operand count, nor a jump.
abbrev pub IsPlain : ℕ → Type 0
IsPlain op = (op == Op.skip || is_jump op) ≡ false

IsPlain-op : (op : ℕ) → IsPlain op → (op ≢ Op.skip) × (is_jump op ≡ false)
IsPlain-op op h = ground arith

module _ {F : Type 0} where
  abbrev pub first_global : List (Operand F) → Option Hash
  first_global (global h ∷ os) = some h
  first_global _ = none

  -- For a jump, the label that its first operand names, if it does.
  abbrev pub target : Instr F → Option (Option Hash)
  target skip = none
  target (instr op os) = if is_jump op then some (first_global os) else none

  -- Every jump goes to a label that `P` holds of.
  abbrev pub Fits : (Hash → Type 0) → List (Instr F) → Type 0
  Fits P is = All (λ i. OnTarget P (target i)) is

  abbrev pub Defines : Hash → Instr F → Type 0
  Defines h (instr op (global k ∷ os)) = (op ≡ Op.label) × (h ≡ k)
  Defines h _ = ⊥

  abbrev pub Labelled : Hash → List (Instr F) → Type 0
  Labelled h [] = ⊥
  Labelled h (i ∷ is) = Defines h i ⊎ Labelled h is

  abbrev pub Closed : List (Instr F) → Type 0
  Closed is = Fits (λ h. Labelled h is) is

  pub Labelled-left : (h : Hash) (is js : List (Instr F)) → Labelled h is → Labelled h (is ++ js)
  Labelled-left h [] js m = absurd m
  Labelled-left h (i ∷ is) js (inl d) = inl d
  Labelled-left h (i ∷ is) js (inr m) = inr (Labelled-left h is js m)

  pub Labelled-right : (h : Hash) (is js : List (Instr F)) → Labelled h js → Labelled h (is ++ js)
  Labelled-right h [] js m = m
  Labelled-right h (i ∷ is) js m = inr (Labelled-right h is js m)

  pub Fits-weaken :
      (P Q : Hash → Type 0) (is : List (Instr F)) → ((h : Hash) → P h → Q h) → Fits P is → Fits Q is
  Fits-weaken P Q is f h = All-weaken _ _ is (λ i. OnTarget-weaken P Q (target i) f) h

  pub Fits-append :
      (P : Hash → Type 0) (is js : List (Instr F)) → Fits P is → Fits P js → Fits P (is ++ js)
  Fits-append P is js p q = All-append _ is js p q

  pub Closed-append : (is js : List (Instr F)) → Closed is → Closed js → Closed (is ++ js)
  Closed-append is js p q =
      Fits-append _ is js (Fits-weaken _ _ is (λ h. Labelled-left h is js) p)
        (Fits-weaken _ _ js (λ h. Labelled-right h is js) q)

module _ (host : Host) where
  open host use {floats}
  open host.floats use {F}

  code-append : (is js : List (Instr F)) → code floats (is ++ js) ≡ code floats is ++ code floats js
  unfolding code
  code-append [] js = refl
  code-append (i ∷ is) js =
      ap (λ bs. encode_instr floats i ++ bs) (code-append is js)
      ∙ sym (append_assoc (encode_instr floats i) (code floats is) (code floats js))

  -- From one state to the next exactly these instructions were written.
  abbrev pub Wrote : Compiler F → List (Instr F) → Compiler F → Type 0
  Wrote c is d = (d.bytecode ≡ c.bytecode ++ code floats is) × All (IsInstr floats) is

  pub Wrote-one :
      (c d : Compiler F) (i : Instr F)
      → d.bytecode ≡ c.bytecode ++ encode_instr floats i
      → IsInstr floats i
      → Wrote c (i ∷ []) d
  unfolding code
  Wrote-one c d i e ok = (e ∙ ap (λ bs. c.bytecode ++ bs) (sym (append-nil _)), (ok, tt))

  pub Wrote-none : (c d : Compiler F) → d.bytecode ≡ c.bytecode → Wrote c [] d
  unfolding code
  Wrote-none c d e = (e ∙ sym (append-nil _), tt)

  pub Wrote-trans :
      (c d e : Compiler F) (is js : List (Instr F))
      → Wrote c is d
      → Wrote d js e
      → Wrote c (is ++ js) e
  Wrote-trans c d e is js (p, h) (q, k) = (
    q
        ∙ ap (λ bs. bs ++ code floats js) p
        ∙ append_assoc c.bytecode (code floats is) (code floats js)
        ∙ ap (λ bs. c.bytecode ++ bs) (sym (code-append is js)),
    All-append _ is js h k,
  )

  -- A pass that writes closed code, from every state.
  abbrev pub WritesClosed : Pass host → Type 0
  WritesClosed p = (c : Compiler F) → (is : List (Instr F)) × Wrote c is (p c) × Closed is

  pub WritesClosed-then :
      (p q : Pass host) → WritesClosed p → WritesClosed q → WritesClosed (λ c. q (p c))
  WritesClosed-then p q wp wq c =
      let (is, w, k) = wp c in
      let (js, v, l) = wq (p c) in
      (is ++ js, Wrote-trans c (p c) (q (p c)) is js w v, Closed-append is js k l)

  -- A pass that writes one instruction, which is no jump.
  abbrev pub One : Pass host → Compiler F → Type 0
  One p c = (i : Instr F) × (Wrote c (i ∷ []) (p c)) × (target i ≡ none)

  abbrev pub WritesOne : Pass host → Type 0
  WritesOne p = (c : Compiler F) → One p c

  pub writes-instr :
      (p : Pass host) (c : Compiler F) (op : ℕ) (os : List (Operand F))
      → (p c).bytecode ≡ c.bytecode ++ encode_instr floats (instr op os)
      → IsPlain op
      → length os < 256
      → All (IsEncodable floats) os
      → One p c
  writes-instr p c op os e h lt ok =
      let (ne, plain) = IsPlain-op op h in
      (instr op os, Wrote-one c (p c) (instr op os) e (ne, lt, ok), rw plain refl)

  pub WritesOne-closed : (p : Pass host) → WritesOne p → WritesClosed p
  WritesOne-closed p w c = let (i, v, e) = w c in (i ∷ [], v, (rw e tt, tt))

  -- A pass may emit nothing.
  pub Writes-nothing :
      (p : Pass host) → ((c : Compiler F) → (p c).bytecode ≡ c.bytecode) → WritesClosed p
  Writes-nothing p same c = ([], Wrote-none c (p c) (same c), tt)
