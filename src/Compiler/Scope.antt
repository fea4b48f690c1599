-- ===== src/Compiler/Scope.antt =====
-- Passes whose jumps may go to labels that are placed later: what such a pass still needs, and
-- which labels it gives.
use cubelang.Base.{
  ◌==◌, ==_iff, Bool-apart, false, ℕ, List, [], ◌∷◌, ◌++◌, ◌≡◌, refl, sym, subst, ◌⊎◌, inl, inr,
  All, arith, All-append, All-weaken,
}
use cubelang.Base.Text.{Text}
use cubelang.Bytecode.Op
use cubelang.Bytecode.Operand.{Hash}
use cubelang.Bytecode.Code.{Instr, IsInstr}
use cubelang.Vm.State.{Host}
use cubelang.Compiler.State.{Compiler}
use cubelang.Compiler.Emit.{Pass, emit_label, emit_jmp, emit_cond_jump, emit_debug}
use cubelang.Compiler.Bytes.{on_label, bytes_label, bytes_jmp, bytes_cond, bytes_debug}
use cubelang.Compiler.Output.{
  Fits, Fits-weaken, Fits-append, Labelled, Labelled-left, Labelled-right, Wrote, Wrote-one,
  Wrote-none, Wrote-trans, WritesClosed,
}

abbrev pub Among : Hash → List Hash → Type 0
Among h [] = ⊥
Among h (x ∷ xs) = (h ≡ x) ⊎ Among h xs

Among-left : (h : Hash) (xs ys : List Hash) → Among h xs → Among h (xs ++ ys)
Among-left h [] ys m = absurd m
Among-left h (x ∷ xs) ys (inl e) = inl e
Among-left h (x ∷ xs) ys (inr m) = inr (Among-left h xs ys m)

Among-right : (h : Hash) (xs ys : List Hash) → Among h ys → Among h (xs ++ ys)
Among-right h [] ys m = m
Among-right h (x ∷ xs) ys m = inr (Among-right h xs ys m)

Among-All : (P : Hash → Type 0) (xs : List Hash) → All P xs → (h : Hash) → Among h xs → P h
Among-All P [] a h m = absurd m
Among-All P (x ∷ xs) a h (inl e) = subst P (sym e) a.0
Among-All P (x ∷ xs) a h (inr m) = Among-All P xs a.1 h m

module _ {F : Type 0} where
  -- Where a jump may go: to a needed label, or to a label of this code.
  abbrev Open : List Hash → List (Instr F) → Hash → Type 0
  Open needs is h = Among h needs ⊎ Labelled h is

  Open-left :
      (ns ms : List Hash) (is js : List (Instr F)) (h : Hash)
      → Open ns is h
      → Open (ns ++ ms) (is ++ js) h
  Open-left ns ms is js h (inl m) = inl (Among-left h ns ms m)
  Open-left ns ms is js h (inr l) = inr (Labelled-left h is js l)

  Open-right :
      (ns ms : List Hash) (is js : List (Instr F)) (h : Hash)
      → Open ms js h
      → Open (ns ++ ms) (is ++ js) h
  Open-right ns ms is js h (inl m) = inl (Among-right h ns ms m)
  Open-right ns ms is js h (inr l) = inr (Labelled-right h is js l)

  Open-resolve :
      (ns gs ms : List Hash) (is : List (Instr F)) (h : Hash)
      → All (λ n. Among n gs ⊎ Among n ms) ns
      → All (λ g. Labelled g is) gs
      → Open ns is h
      → Open ms is h
  Open-resolve ns gs ms is h given placed (inr l) = inr l
  Open-resolve ns gs ms is h given placed (inl m) =
      elim (Among-All (λ n. Among n gs ⊎ Among n ms) ns given h m) [
        | inl g ↦ inr (Among-All (λ g. Labelled g is) gs placed h g)
        | inr n ↦ inl n
      ]

  Open-close :
      (ns gs : List Hash) (is : List (Instr F)) (h : Hash)
      → All (λ n. Among n gs) ns
      → All (λ g. Labelled g is) gs
      → Open ns is h
      → Labelled h is
  Open-close ns gs is h given placed (inl m) =
      Among-All (λ g. Labelled g is) gs placed h (Among-All (λ n. Among n gs) ns given h m)
  Open-close ns gs is h given placed (inr l) = l

module _ (host : Host) where
  open host use {hash, floats}
  open host.floats use {F}

  -- The pass writes code that jumps to its own labels and the needed ones, and places the given
  -- ones.
  pub record Writes (needs gives : List Hash) (p : Pass host) : Type 0 where
    pub written :
        (c : Compiler F)
        → (is : List (Instr F)) × Wrote host c is (p c)
          × Fits (Open needs is) is
          × All (λ h. Labelled h is) gives

  pub Writes_closed : (p : Pass host) → WritesClosed host p → Writes [] [] p
  Writes_closed p w = record {
    written = λ c. let (is, v, k) = w c in (is, v, Fits-weaken _ _ is (λ h l. inr l) k, tt);
  }

  -- A needed label may be given, or stay needed.
  pub Writes-resolve :
      {ns gs : List Hash} {p : Pass host} (ms : List Hash)
      → Writes ns gs p
      → All (λ n. Among n gs ⊎ Among n ms) ns
      → Writes ms [] p
  Writes-resolve {ns} {gs} {p} ms w given = record {
    written = λ c.
        let (is, wis, kis, gis) = w.written c in
        (is, wis, Fits-weaken _ _ is (λ h. Open-resolve ns gs ms is h given gis) kis, tt);
  }

  -- When every needed label is given, the code is closed.
  pub Writes-close :
      {ns gs : List Hash} {p : Pass host}
      → Writes ns gs p
      → All (λ n. Among n gs) ns
      → WritesClosed host p
  Writes-close {ns} {gs} {p} w given c =
      let (is, wis, kis, gis) = w.written c in
      (is, wis, Fits-weaken _ _ is (λ h. Open-close ns gs is h given gis) kis)

  pub Writes-emit_debug : (op : ℕ) (d : Text) → Writes [] [] (emit_debug host op d)
  Writes-emit_debug op d = record {
    written =
        λ c. ([], Wrote-none host c (emit_debug host op d c) (bytes_debug host op d c), tt, tt);
  }

  on_label-IsInstr :
      (op : ℕ) (l : Text) → (op == Op.skip) ≡ false → IsInstr floats (on_label host op l)
  on_label-IsInstr op l e =
      ((λ q. Bool-apart (op == Op.skip) ((==_iff op Op.skip).1 q) e), omega arith, (tt, tt))

  pub Writes-emit_label : (l : Text) → Writes [] (hash l ∷ []) (emit_label host l)
  Writes-emit_label l = record {
    written = λ c. (
      on_label host Op.label l ∷ [],
      Wrote-one host c (emit_label host l c) (on_label host Op.label l) (bytes_label host l c)
          (on_label-IsInstr Op.label l refl),
      (tt, tt),
      (inl (refl, refl), tt),
    );
  }

  pub Writes-emit_jmp : (l : Text) → Writes (hash l ∷ []) [] (emit_jmp host l)
  Writes-emit_jmp l = record {
    written = λ c. (
      on_label host Op.jmp l ∷ [],
      Wrote-one host c (emit_jmp host l c) (on_label host Op.jmp l) (bytes_jmp host l c)
          (on_label-IsInstr Op.jmp l refl),
      (inl (inl refl), tt),
      tt,
    );
  }

  pub Writes-emit_cond_jump : (l : Text) → Writes (hash l ∷ []) [] (emit_cond_jump host l)
  Writes-emit_cond_jump l = record {
    written = λ c. (
      on_label host Op.cond l ∷ [],
      Wrote-one host c (emit_cond_jump host l c) (on_label host Op.cond l) (bytes_cond host l c)
          (on_label-IsInstr Op.cond l refl),
      (inl (inl refl), tt),
      tt,
    );
  }

-- One pass after another.
infixl 1 ◌⨾◌
pub ◌⨾◌ :
    {host : Host} {ns gs ms hs : List Hash} {p q : Pass host}
    → Writes host ns gs p
    → Writes host ms hs q
    → Writes host (ns ++ ms) (gs ++ hs) (λ c. q (p c))
◌⨾◌ {host} {ns} {gs} {ms} {hs} {p} {q} w v = record {
  written = λ c.
      let (is, wis, kis, gis) = w.written c in
      let (js, wjs, kjs, gjs) = v.written (p c) in
      (
        is ++ js,
        Wrote-trans host c (p c) (q (p c)) is js wis wjs,
        Fits-append _ is js (Fits-weaken _ _ is (Open-left ns ms is js) kis)
            (Fits-weaken _ _ js (Open-right ns ms is js) kjs),
        All-append _ gs hs (All-weaken _ _ gs (λ h. Labelled-left h is js) gis)
            (All-weaken _ _ hs (λ h. Labelled-right h is js) gjs),
      );
}
