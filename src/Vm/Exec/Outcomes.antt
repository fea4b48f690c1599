-- ===== src/Vm/Exec/Outcomes.antt =====
-- When an entry is refused, and which answers a suspension accepts (src/vm/engine.rs:
-- `exec_function`, `resume`, `same_selection`).
use cubelang.Base.{
  Bool-cases, Option, Option-cases, ==_iff, ap, ◌==◌, ◌↔◌, List, [], ◌∷◌, ◌++◌, true, false, none,
  some, any, length, ==_refl, ◌≡◌, refl, ◌⊎◌, inl, inr, arith,
}
use cubelang.Base.Int.{ℤ, eq_ℤ}
use cubelang.Base.Text.{Text}
use cubelang.Base.Dict.{Dict, lookup}
use cubelang.Base.Equal.{list_equal, list_eq_refl, list_eq_iff}
use cubelang.Base.Unique.{IsUnique}
use cubelang.Program.{CompiledFunction}
use cubelang.Vm.Value.{
  Value, Values, Fields, int, float, str, bool, null, array, map, hvec, no_values, value, no_fields,
  field, items, entries, same_selection, same_items, same_fields,
}
use cubelang.Vm.State.{Host, Vm, Suspension, already_run}
use cubelang.Vm.Turn.{Locals}
use cubelang.Vm.Frames.Recover.{is_among}
use cubelang.Vm.Exec.{Entry, started, refused, once_key, start, enter, offered}

any_last : (key : Text) (ks : List Text) → is_among key (ks ++ key ∷ []) ≡ true
any_last key [] = ground (arith, list_eq_refl key)
any_last key (k ∷ ks) = ground (arith, any_last key ks)

module _ (host : Host) where
  open host.floats use {F, eq}

  -- What an entry of a function that ran already comes to: a refusal, or a resumption from what the
  -- suspension recorded.
  abbrev pub entered_again : Text → Vm F → Option (Suspension F) → Entry F
  entered_again key vm none = refused (already_run key) vm
  entered_again key vm (some r) =
      started (record { pc = r.pc; flag = r.flag; jump_budget = r.jump_budget })
        (record vm { resume_state = none })

  -- After an `@once` function has been entered, a second entry of it, on any machine of the same
  -- program that remembers what was entered until then, is refused and changes nothing, unless it is
  -- a resumption, which goes on where the suspension left off.
  pub enter_once :
      (func : CompiledFunction) (vm vm1 vm2 : Vm F) (l : Locals)
      → func.once ≡ true
      → vm.resume_state ≡ none
      → enter host func vm ≡ started l vm1
      → ((k : Text) → is_among k vm1.once_called ≡ true → is_among k vm2.once_called ≡ true)
      → vm2.current_program ≡ vm.current_program
      → enter host func vm2 ≡ entered_again (once_key host func vm) vm2 vm2.resume_state
  unfolding enter start
  enter_once func vm vm1 vm2 l once fresh e remembers here =
      let key : once_key host func vm2 ≡ once_key host func vm = rw here refl in
      let entered : vm1.once_called ≡ vm.once_called ++ once_key host func vm ∷ [] = ground arith in
      let mine : is_among (once_key host func vm) vm1.once_called ≡ true =
        rw entered (any_last (once_key host func vm) vm.once_called) in
      let again : is_among (once_key host func vm2) vm2.once_called ≡ true =
        rw key (remembers (once_key host func vm) mine) in
      elim (Option-cases vm2.resume_state) [
        | inl new ↦ ground arith
        | inr (r, suspended) ↦ ground arith
      ]

  -- Values that a caller can hand back: no hypervector, no float that differs from itself, and no
  -- key twice in a map.
  abbrev mutual
    pub IsSelectable : Value F → Type 0
    IsSelectable (hvec h) = ⊥
    IsSelectable (float x) = eq x x ≡ true
    IsSelectable (array vs) = AreSelectable vs
    IsSelectable (map fs) = IsUnique (entries fs) × FieldsSelectable fs
    IsSelectable _ = Unit

    pub AreSelectable : Values F → Type 0
    AreSelectable no_values = Unit
    AreSelectable (value v vs) = IsSelectable v × AreSelectable vs

    pub FieldsSelectable : Fields F → Type 0
    FieldsSelectable no_fields = Unit
    FieldsSelectable (field k v fs) = IsSelectable v × FieldsSelectable fs

  Within : Fields F → Dict Text (Value F) → Type 0
  Within no_fields ys = Unit
  Within (field k v fs) ys = (lookup k ys ≡ some v) × Within fs ys

  Within-cons :
      (fs : Fields F) (ys : Dict Text (Value F)) (k : Text) (w : Value F)
      → lookup k (entries fs) ≡ none
      → Within fs ys
      → Within fs ((k, w) ∷ ys)
  unfolding Within lookup entries
  Within-cons no_fields ys k w h p = tt
  Within-cons (field j v fs) ys k w h (here, rest) =
      (ground (arith, list_eq_iff j k, list_eq_iff k j), Within-cons fs ys k w (ground arith) rest)

  Within-entries : (fs : Fields F) → IsUnique (entries fs) → Within fs (entries fs)
  unfolding Within lookup entries
  Within-entries no_fields h = tt
  Within-entries (field k v fs) (first, rest) = (
    ground (arith, list_eq_refl k),
    Within-cons fs (entries fs) k v first (Within-entries fs rest),
  )

  eq_ℤ_refl : (n : ℤ) → eq_ℤ n n ≡ true
  eq_ℤ_refl (ℤ.pos n) = ==_refl n
  eq_ℤ_refl (ℤ.negsuc n) = ==_refl n

  mutual
    unfolding same_selection same_items same_fields items Within

    same_selection_self : (v : Value F) → IsSelectable v → same_selection host.floats v v ≡ true
    same_selection_self (int n) h = eq_ℤ_refl n
    same_selection_self (float x) h = h
    same_selection_self (str s) h = list_eq_refl s
    same_selection_self (bool true) h = refl
    same_selection_self (bool false) h = refl
    same_selection_self null h = refl
    same_selection_self (array vs) h = rw (==_refl (length (items vs))) (same_items_refl vs h)
    same_selection_self (map fs) (unique, h) =
        rw (==_refl (length (entries fs)))
          (same_fields-Within fs (entries fs) h (Within-entries fs unique))
    same_selection_self (hvec v) h = absurd h

    same_items_refl :
        (vs : Values F) → AreSelectable vs → same_items host.floats vs (items vs) ≡ true
    same_items_refl no_values h = refl
    same_items_refl (value v vs) (first, rest) =
        rw (same_selection_self v first) (same_items_refl vs rest)

    same_fields-Within :
        (fs : Fields F) (ys : Dict Text (Value F))
        → FieldsSelectable fs
        → Within fs ys
        → same_fields host.floats fs ys ≡ true
    same_fields-Within no_fields ys h p = refl
    same_fields-Within (field k v fs) ys (first, rest) (here, more) =
        rw (here, same_selection_self v first) (same_fields-Within fs ys rest more)

  abbrev pub IsIn : Value F → List (Value F) → Type 0
  IsIn v [] = ⊥
  IsIn v (w ∷ ws) = (w ≡ v) ⊎ IsIn v ws

  any_same :
      (v : Value F) (ws : List (Value F))
      → IsIn v ws
      → IsSelectable v
      → any (λ c. same_selection host.floats c v) ws ≡ true
  any_same v [] i h = absurd i
  any_same v (w ∷ ws) (inl e) h = rw (e, same_selection_self v h) refl
  any_same v (w ∷ ws) (inr i) h = ground (arith, any_same v ws i h)

  -- Each candidate of a suspension that holds no hypervector, no float that differs from itself and
  -- no key twice in a map can be chosen.
  pub offered-candidate :
      (susp : Suspension F) (c : Value F)
      → IsIn c susp.candidates
      → IsSelectable c
      → offered host susp c ≡ true
  unfolding offered
  offered-candidate susp c i h = ground (arith, any_same c susp.candidates i h)

  -- Integers, strings, Booleans, null and arrays of them.
  abbrev mutual
    pub IsPlain : Value F → Type 0
    IsPlain (int n) = Unit
    IsPlain (str s) = Unit
    IsPlain (bool b) = Unit
    IsPlain null = Unit
    IsPlain (array vs) = ArePlain vs
    IsPlain _ = ⊥

    pub ArePlain : Values F → Type 0
    ArePlain no_values = Unit
    ArePlain (value v vs) = IsPlain v × ArePlain vs

  eq_ℤ_sound : (m n : ℤ) → eq_ℤ m n ≡ true → m ≡ n
  eq_ℤ_sound (ℤ.pos m) (ℤ.pos n) h = ap ℤ.pos ((==_iff m n).0 h)
  eq_ℤ_sound (ℤ.negsuc m) (ℤ.negsuc n) h = ap ℤ.negsuc ((==_iff m n).0 h)
  eq_ℤ_sound (ℤ.pos m) (ℤ.negsuc n) h = absurd (ground arith)
  eq_ℤ_sound (ℤ.negsuc m) (ℤ.pos n) h = absurd (ground arith)

  mutual
    unfolding same_selection same_items items

    -- The same selection as a plain value is that value.
    same_selection_sound :
        (c v : Value F) → IsPlain v → same_selection host.floats c v ≡ true → c ≡ v
    same_selection_sound (int m) (int n) p h = ap Value.int (eq_ℤ_sound m n h)
    same_selection_sound (str s) (str t) p h = ap Value.str ((list_eq_iff s t).0 h)
    same_selection_sound (bool true) (bool true) p h = refl
    same_selection_sound (bool false) (bool false) p h = refl
    same_selection_sound (bool true) (bool false) p h = absurd (ground arith)
    same_selection_sound (bool false) (bool true) p h = absurd (ground arith)
    same_selection_sound null null p h = refl
    same_selection_sound (array cs) (array vs) p h =
        ap Value.array (same_items_sound cs vs p (ground arith) (ground arith))
    same_selection_sound c (float x) p h = absurd p
    same_selection_sound c (map fs) p h = absurd p
    same_selection_sound c (hvec v) p h = absurd p
    same_selection_sound c v p h = absurd (ground arith)

    same_items_sound :
        (cs vs : Values F)
        → ArePlain vs
        → length (items cs) ≡ length (items vs)
        → same_items host.floats cs (items vs) ≡ true
        → cs ≡ vs
    same_items_sound no_values no_values p e h = refl
    same_items_sound no_values (value v vs) p e h = absurd (omega arith)
    same_items_sound (value c cs) no_values p e h = absurd (omega arith)
    same_items_sound (value c cs) (value v vs) p e h = cc (
      same_selection_sound c v p.0 (ground arith),
      same_items_sound cs vs p.1 (omega arith) (ground arith),
    )

  mutual
    plain-IsSelectable : (v : Value F) → IsPlain v → IsSelectable v
    plain-IsSelectable (array vs) p = plain-AreSelectable vs p
    plain-IsSelectable (float x) p = absurd p
    plain-IsSelectable (map fs) p = absurd p
    plain-IsSelectable (hvec v) p = absurd p
    plain-IsSelectable v p = tt

    plain-AreSelectable : (vs : Values F) → ArePlain vs → AreSelectable vs
    plain-AreSelectable no_values p = tt
    plain-AreSelectable (value v vs) p = (plain-IsSelectable v p.0, plain-AreSelectable vs p.1)

  any_sound :
      (v : Value F) (ws : List (Value F))
      → IsPlain v
      → any (λ c. same_selection host.floats c v) ws ≡ true
      → IsIn v ws
  any_sound v [] p h = absurd (ground arith)
  any_sound v (w ∷ ws) p h = elim (Bool-cases (same_selection host.floats w v)) [
    | inl same ↦ inl (same_selection_sound w v p same)
    | inr other ↦ inr (any_sound v ws p (ground arith))
  ]

  -- An answer of integers, strings, Booleans, null and arrays of them is accepted exactly where the
  -- suspension offers no candidates or the answer is one of them.
  pub offered-IsIn :
      (susp : Suspension F) (answer : Value F)
      → IsPlain answer
      → (offered host susp answer ≡ true)
        ↔ ((length susp.candidates ≡ 0) ⊎ IsIn answer susp.candidates)
  unfolding offered
  offered-IsIn susp answer p = (
    (λ e. elim (Bool-cases (length susp.candidates == 0)) [
      | inl free ↦ inl ((==_iff _ _).0 free)
      | inr closed ↦ inr (any_sound answer susp.candidates p (ground arith))
    ]),
    (λ h. elim h [
      | inl free ↦ ground arith
      | inr i ↦ offered-candidate susp answer i (plain-IsSelectable answer p)
    ]),
  )
