-- ===== src/Compiler/Jumps.antt =====
-- The jumps of compiled code and the labels that the VM finds (src/vm/engine.rs: `scan_labels`,
-- `exec_function`).
use cubelang.Base.{
  ℕ, ◌+◌, List, [], ◌∷◌, ◌++◌, Bool, true, false, ◌==◌, Option, none, some, if◌then◌else◌, length,
  drop, ◌≡◌, refl, sym, subst, ap, ◌∙◌, ◌⊎◌, inl, inr, All, arith, drop-append, drop_plus,
  Bool-cases, Bool-apart, ==_iff, Option-cases, All-weaken,
}
use cubelang.Base.Dict.{Dict, lookup, insert, lookup-insert, lookup-insert_self}
use cubelang.Base.Equal.{pair_equal, pair_eq_iff, ◌=?◌}
use cubelang.Bytecode.Op
use cubelang.Bytecode.Operand.{Operand, Hash, global, label_key}
use cubelang.Bytecode.Scan.{first_key, note_label, scan_labels}
use cubelang.Bytecode.Code.{
  Instr, skip, instr, encode_instr, code, IsInstr, labels_from, scan_labels-labels_from,
}
use cubelang.Vm.State.{Host}
use cubelang.Vm.Step.{target_of}
use cubelang.Compiler.Output.{OnTarget, is_jump, first_global, target, Defines, Labelled, Closed}

module _ (host : Host) where
  open host use {hash, floats}
  open host.floats use {F}

  -- At the position stands a LABEL instruction with this key.
  abbrev LabelAt : List ℕ → Hash → ℕ → Type 0
  LabelAt bs h pc =
      (os : List (Operand F)) × (rest : List ℕ) × (first_key floats os ≡ some h)
      × (drop pc bs ≡ encode_instr floats (instr Op.label os) ++ rest)

  abbrev Found : List ℕ → Hash → Dict Hash ℕ → Type 0
  Found bs h m = (pc : ℕ) × (lookup h m ≡ some pc) × LabelAt bs h pc

  Found-insert :
      (bs : List ℕ) (h k : Hash) (pc : ℕ) (m : Dict Hash ℕ)
      → LabelAt bs k pc
      → (h ≡ k) ⊎ Found bs h m
      → Found bs h (insert k pc m)
  Found-insert bs h k pc m at found = elim (Bool-cases (k =? h)) [
    | inl e ↦
        let at_h = subst (λ x. LabelAt bs x pc) ((pair_eq_iff k h).0 e) at in
        (pc, rw (lookup-insert, e) refl, at_h)
    | inr e ↦ elim found [
      | inl q ↦ absurd (Bool-apart (k =? h) ((pair_eq_iff k h).1 (sym q)) e)
      | inr (t, l, at_t) ↦ (t, rw (lookup-insert, e) l, at_t)
    ]
  ]

  -- The instruction is a LABEL with this key.
  abbrev Names : Hash → ℕ → List (Operand F) → Type 0
  Names h op os = (op ≡ Op.label) × (first_key floats os ≡ some h)

  Defines-Names :
      (h : Hash) (op : ℕ) (os : List (Operand F)) → Defines h (instr op os) → Names h op os
  unfolding first_key label_key
  Defines-Names h op (global k ∷ os) (e, q) = (e, rw q refl)
  Defines-Names h op os d = absurd d

  note_label-insert :
      (h : Hash) (op : ℕ) (os : List (Operand F)) (pc : ℕ) (m : Dict Hash ℕ)
      → Names h op os
      → note_label floats op os pc m ≡ insert h pc m
  unfolding note_label
  note_label-insert h op os pc m (e, q) = rw (e, q) refl

  note_label-other :
      (op : ℕ) (os : List (Operand F)) (pc : ℕ) (m : Dict Hash ℕ)
      → (op == Op.label) ≡ false
      → note_label floats op os pc m ≡ m
  unfolding note_label
  note_label-other op os pc m e = rw e refl

  note_label-keyless :
      (op : ℕ) (os : List (Operand F)) (pc : ℕ) (m : Dict Hash ℕ)
      → first_key floats os ≡ none
      → note_label floats op os pc m ≡ m
  unfolding note_label
  note_label-keyless op os pc m e = ground (arith, e)

  as_label :
      (bs rest : List ℕ) (op : ℕ) (os : List (Operand F)) (pc : ℕ)
      → op ≡ Op.label
      → drop pc bs ≡ encode_instr floats (instr op os) ++ rest
      → drop pc bs ≡ encode_instr floats (instr Op.label os) ++ rest
  as_label bs rest op os pc e at =
      subst (λ o. drop pc bs ≡ encode_instr floats (instr o os) ++ rest) e at

  -- A LABEL instruction is noted, and no label found before is lost.
  Found-note_label :
      (bs rest : List ℕ) (h : Hash) (op : ℕ) (os : List (Operand F)) (pc : ℕ) (m : Dict Hash ℕ)
      → drop pc bs ≡ encode_instr floats (instr op os) ++ rest
      → Names h op os ⊎ Found bs h m
      → Found bs h (note_label floats op os pc m)
  Found-note_label bs rest h op os pc m at (inl n) =
      subst (Found bs h) (sym (note_label-insert h op os pc m n))
        (pc, rw lookup-insert_self refl, (os, rest, n.1, as_label bs rest op os pc n.0 at))
  Found-note_label bs rest h op os pc m at (inr found) = elim (Option-cases (first_key floats os)) [
    | inl e ↦ subst (Found bs h) (sym (note_label-keyless op os pc m e)) found
    | inr (k, q) ↦ elim (Bool-cases (op == Op.label)) [
      | inl e ↦
          let label = (==_iff op Op.label).0 e in
          subst (Found bs h) (sym (note_label-insert k op os pc m (label, q)))
            (Found-insert bs h k pc m (os, rest, q, as_label bs rest op os pc label at) (inr found))
      | inr e ↦ subst (Found bs h) (sym (note_label-other op os pc m e)) found
    ]
  ]

  -- Past one instruction, the rest of the code follows.
  drop_next :
      (bs : List ℕ) (i : Instr F) (rest : List ℕ) (pc : ℕ)
      → drop pc bs ≡ encode_instr floats i ++ rest
      → drop (pc + length (encode_instr floats i)) bs ≡ rest
  drop_next bs i rest pc at =
      drop_plus pc (length (encode_instr floats i)) bs
      ∙ ap (drop (length (encode_instr floats i))) at
      ∙ drop-append (encode_instr floats i) rest

  Found-labels_from :
      (bs : List ℕ) (h : Hash) (is : List (Instr F)) (pc : ℕ) (m : Dict Hash ℕ)
      → drop pc bs ≡ code floats is
      → Labelled h is ⊎ Found bs h m
      → Found bs h (labels_from floats is pc m)
  unfolding labels_from code encode_instr
  Found-labels_from bs h [] pc m at (inl l) = absurd l
  Found-labels_from bs h [] pc m at (inr found) = found
  Found-labels_from bs h (skip ∷ is) pc m at (inl (inl d)) = absurd d
  Found-labels_from bs h (skip ∷ is) pc m at (inl (inr l)) =
      Found-labels_from bs h is (pc + 1) m (drop_next bs skip (code floats is) pc at) (inl l)
  Found-labels_from bs h (skip ∷ is) pc m at (inr found) =
      Found-labels_from bs h is (pc + 1) m (drop_next bs skip (code floats is) pc at) (inr found)
  Found-labels_from bs h (instr op os ∷ is) pc m at (inl (inr l)) =
      Found-labels_from bs h is (pc + length (encode_instr floats (instr op os)))
        (note_label floats op os pc m) (drop_next bs (instr op os) (code floats is) pc at) (inl l)
  Found-labels_from bs h (instr op os ∷ is) pc m at (inl (inl d)) =
      Found-labels_from bs h is (pc + length (encode_instr floats (instr op os)))
        (note_label floats op os pc m) (drop_next bs (instr op os) (code floats is) pc at)
        (inr (Found-note_label bs (code floats is) h op os pc m at (inl (Defines-Names h op os d))))
  Found-labels_from bs h (instr op os ∷ is) pc m at (inr found) =
      Found-labels_from bs h is (pc + length (encode_instr floats (instr op os)))
        (note_label floats op os pc m) (drop_next bs (instr op os) (code floats is) pc at)
        (inr (Found-note_label bs (code floats is) h op os pc m at (inr found)))

  -- In code, a label of one of its instructions is found by the scan.
  scan-Found :
      (h : Hash) (is : List (Instr F))
      → All (IsInstr floats) is
      → Labelled h is
      → Found (code floats is) h (scan_labels floats (code floats is))
  scan-Found h is ok l =
      subst (Found (code floats is) h) (sym (scan_labels-labels_from floats is ok))
        (Found-labels_from (code floats is) h is 0 [] refl (inl l))

  -- The position stands at a LABEL instruction with the key of these operands.
  abbrev pub AtLabel : List ℕ → List (Operand F) → Option ℕ → Type 0
  AtLabel bs os none = ⊥
  AtLabel bs os (some pc) =
      (ks : List (Operand F)) × (rest : List ℕ) × (first_key floats ks ≡ first_key floats os)
      × (drop pc bs ≡ encode_instr floats (instr Op.label ks) ++ rest)

  -- A jump of the code finds its label in the map that the VM scans from the bytes.
  abbrev pub Lands : List ℕ → Instr F → Type 0
  Lands bs skip = Unit
  Lands bs (instr op os) =
      if is_jump op then AtLabel bs os (target_of host os (scan_labels floats bs)) else Unit

  target_of-lookup :
      (h : Hash) (os : List (Operand F)) (m : Dict Hash ℕ)
      → first_key floats os ≡ some h
      → target_of host os m ≡ lookup h m
  unfolding target_of
  target_of-lookup h os m e = rw (target_of, e) refl

  Found-AtLabel :
      (bs : List ℕ) (h : Hash) (os : List (Operand F)) (m : Dict Hash ℕ)
      → first_key floats os ≡ some h
      → Found bs h m
      → AtLabel bs os (target_of host os m)
  Found-AtLabel bs h os m e (pc, l, (ks, rest, q, at)) =
      subst (AtLabel bs os) (sym (target_of-lookup h os m e ∙ l)) (ks, rest, q ∙ sym e, at)

  Lands_if :
      (is : List (Instr F)) (jumps : Bool) (os : List (Operand F))
      → All (IsInstr floats) is
      → OnTarget (λ h. Labelled h is) (if jumps then some (first_global os) else none)
      → if jumps
        then AtLabel (code floats is) os (target_of host os (scan_labels floats (code floats is)))
        else Unit
  unfolding first_key label_key
  Lands_if is false os ok t = tt
  Lands_if is true (global h ∷ os) ok t =
      Found-AtLabel (code floats is) h (global h ∷ os) (scan_labels floats (code floats is)) refl
        (scan-Found h is ok t)
  Lands_if is true os ok t = absurd t

  Lands-one :
      (is : List (Instr F)) (i : Instr F)
      → All (IsInstr floats) is
      → OnTarget (λ h. Labelled h is) (target i)
      → Lands (code floats is) i
  Lands-one is skip ok t = tt
  Lands-one is (instr op os) ok t = Lands_if is (is_jump op) os ok t

  -- The jumps of closed code find their labels.
  pub Closed-Lands :
      (is : List (Instr F)) → All (IsInstr floats) is → Closed is → All (Lands (code floats is)) is
  Closed-Lands is ok closed = All-weaken _ _ is (λ i t. Lands-one is i ok t) closed
