-- ===== src/Memory/Invariant.antt =====
-- The traces and the key table agree, every operation keeps them so, and each is an operation on
-- the map from keys to payloads that `get_exact` reads.
use cubelang.Base.{
  ℕ, ◌<◌, List, [], ◌∷◌, ◌++◌, Bool-cases, true, false, Option, Option-cases, none, some,
  if◌then◌else◌, ◌==◌, length, get_elem?, set, get_elem?-set, get_elem?-push, get_elem?-lt, ◌≡◌,
  refl, sym, ◌∙◌, inl, inr, arith,
}
use cubelang.Base.Text.{Text}
use cubelang.Base.Dict.{Dict, lookup, insert, remove, lookup-insert, lookup-remove}
use cubelang.Base.Equal.{list_equal, list_eq, list_eq_iff, list_eq_refl}
use cubelang.Memory.{MemoryTrace, payload}

abbrev pub Traces : Type 0 → Type 0
Traces V = List (Option (MemoryTrace V))

abbrev pub tr : {V : Type 0} → Text → V → Option (MemoryTrace V)
tr k v = some (record { key = k; value = v })

-- A key's id leads to a live trace of that key, and a live trace is the one of its key.
pub record Agree {V : Type 0} (T : List (Option (MemoryTrace V))) (B : Dict Text ℕ) : Type 0 where
  pub keyed : (k : Text) (i : ℕ) → lookup k B ≡ some i → (v : V) × (get_elem? T i ≡ some (tr k v))
  pub owned : (i : ℕ) (t : MemoryTrace V) → get_elem? T i ≡ some (some t) → lookup t.key B ≡ some i

abbrev pub exact : {V : Type 0} → Traces V → Dict Text ℕ → Text → Option V
exact T B k = elim (lookup k B) [ none ↦ none | some i ↦ payload (get_elem? T i) ]

pub exact_hit :
    {V : Type 0} (T : Traces V) (B : Dict Text ℕ) (k : Text) (v : V) (i : ℕ)
    → lookup k B ≡ some i
    → get_elem? T i ≡ some (tr k v)
    → exact T B k ≡ some v
unfolding payload
exact_hit T B k v i p q = ground arith

pub exact_miss :
    {V : Type 0} (T : Traces V) (B : Dict Text ℕ) (k : Text)
    → lookup k B ≡ none
    → exact T B k ≡ none
exact_miss T B k p = ground arith

exact_same :
    {V : Type 0} (T T' : Traces V) (B B' : Dict Text ℕ) (k : Text)
    → lookup k B ≡ lookup k B'
    → ((i : ℕ) → lookup k B ≡ some i → get_elem? T i ≡ get_elem? T' i)
    → exact T B k ≡ exact T' B' k
exact_same T T' B B' k p q = elim (Option-cases (lookup k B)) [
  | inl e ↦ exact_miss T B k e ∙ sym (exact_miss T' B' k (sym p ∙ e))
  | inr (i, e) ↦ ground (arith, q i)
]

module _ {V : Type 0} (T : Traces V) (B : Dict Text ℕ) (agree : Agree T B) (k : Text) (v : V) where
  push_self : get_elem? (T ++ tr k v ∷ []) (length T) ≡ some (tr k v)
  push_self = ground (arith, get_elem?-push T (tr k v) (length T))

  push_old : (i : ℕ) → i < length T → get_elem? (T ++ tr k v ∷ []) i ≡ get_elem? T i
  push_old i h = ground (arith, get_elem?-push T (tr k v) i)

  pushed_key : lookup k (insert k (length T) B) ≡ some (length T)
  pushed_key = ground (arith, lookup-insert k k (length T) B, list_eq_refl k)

  other_key : (j : Text) → list_eq k j ≡ false → lookup j (insert k (length T) B) ≡ lookup j B
  other_key j h = ground (arith, lookup-insert k j (length T) B)

  pub push-Agree : lookup k B ≡ none → Agree (T ++ tr k v ∷ []) (insert k (length T) B)
  push-Agree absent = record {
    keyed = λ j i e. elim (Bool-cases (list_eq k j)) [
      | inl same ↦ (v, ground (arith, push_self, pushed_key, list_eq_iff k j))
      | inr diff ↦
          let (w, g) = agree.keyed j i (sym (other_key j diff) ∙ e) in
          (w, push_old i (get_elem?-lt T i (tr j w) g) ∙ g)
    ];
    owned = λ i t e. elim (Bool-cases (length T == i)) [
      | inl last ↦ ground (arith, get_elem?-push T (tr k v) i, pushed_key)
      | inr old ↦
          let g : get_elem? T i ≡ some (some t) = ground (arith, get_elem?-push T (tr k v) i) in
          ground (arith, agree.owned i t g, lookup-insert k t.key (length T) B, list_eq_iff k t.key)
    ];
  }

  pub push-exact :
      lookup k B ≡ none
      → (j : Text)
      → exact (T ++ tr k v ∷ []) (insert k (length T) B) j
        ≡ (if list_eq k j then some v else exact T B j)
  push-exact absent j = elim (Bool-cases (list_eq k j)) [
    | inl same ↦
        rw (same, ← (list_eq_iff k j).0 same)
          (exact_hit (T ++ tr k v ∷ []) (insert k (length T) B) k v (length T) pushed_key push_self)
    | inr diff ↦ rw diff (
        exact_same (T ++ tr k v ∷ []) T (insert k (length T) B) B j (other_key j diff) (λ i e.
          let (w, g) = agree.keyed j i (sym (other_key j diff) ∙ e) in
          push_old i (get_elem?-lt T i (tr j w) g)))
  ]

  module _ (id : ℕ) (found : lookup k B ≡ some id) where
    id_of : (j : Text) (i : ℕ) → lookup j B ≡ some i → list_eq k j ≡ false → (id == i) ≡ false
    id_of j i e diff = elim (Bool-cases (id == i)) [
      | inr apart ↦ apart
      | inl same ↦
          let (w, g) = agree.keyed j i e in
          let (u, f) = agree.keyed k id found in absurd_of (ground (arith, list_eq_iff k j))
    ]
      where
        absurd_of : (list_eq k j ≡ true) → (id == i) ≡ false
        absurd_of h = cc

    set-at :
        (s : Option (MemoryTrace V)) (i : ℕ)
        → get_elem? (set T id s) i ≡ (if id == i then some s else get_elem? T i)
    set-at s i = let (u, f) = agree.keyed k id found in get_elem?-set T id i s (tr k u) f

    pub set-Agree : Agree (set T id (tr k v)) B
    set-Agree = record {
      keyed = λ j i e. elim (Bool-cases (list_eq k j)) [
        | inl same ↦ (v, ground (arith, set-at (tr k v) i, list_eq_iff k j))
        | inr diff ↦
            let (w, g) = agree.keyed j i e in
            (w, ground (arith, set-at (tr k v) i, id_of j i e diff))
      ];
      owned = λ i t e. elim (Bool-cases (id == i)) [
        | inl same ↦ ground (arith, set-at (tr k v) i)
        | inr diff ↦
            let g : get_elem? T i ≡ some (some t) = ground (arith, set-at (tr k v) i) in
            agree.owned i t g
      ];
    }

    pub set-exact :
        (j : Text) → exact (set T id (tr k v)) B j ≡ (if list_eq k j then some v else exact T B j)
    set-exact j = elim (Bool-cases (list_eq k j)) [
      | inl same ↦
          rw (same, ← (list_eq_iff k j).0 same)
            (exact_hit (set T id (tr k v)) B k v id found (ground (arith, set-at (tr k v) id)))
      | inr diff ↦ rw diff (
          exact_same (set T id (tr k v)) T B B j refl
            (λ i e. ground (arith, set-at (tr k v) i, id_of j i e diff)))
    ]

    removed : (j : Text) → lookup j (remove k B) ≡ (if list_eq k j then none else lookup j B)
    removed j = lookup-remove k j B

    pub forget-Agree : Agree (set T id none) (remove k B)
    forget-Agree = record {
      keyed = λ j i e. elim (Bool-cases (list_eq k j)) [
        | inl same ↦ (v, ground (arith, removed j))
        | inr diff ↦
            let e' : lookup j B ≡ some i = ground (arith, removed j) in
            let (w, g) = agree.keyed j i e' in (w, ground (arith, set-at none i, id_of j i e' diff))
      ];
      owned = λ i t e. elim (Bool-cases (id == i)) [
        | inl same ↦ ground (arith, set-at none i)
        | inr diff ↦
            let g : get_elem? T i ≡ some (some t) = ground (arith, set-at none i) in
            ground (arith, agree.owned i t g, removed t.key, list_eq_iff k t.key)
      ];
    }

    pub forget-exact :
        (j : Text)
        → exact (set T id none) (remove k B) j ≡ (if list_eq k j then none else exact T B j)
    forget-exact j = elim (Bool-cases (list_eq k j)) [
      | inl same ↦ rw same (exact_miss (set T id none) (remove k B) j (ground (arith, removed j)))
      | inr diff ↦ rw diff (
          exact_same (set T id none) T (remove k B) B j (ground (arith, removed j)) (λ i e.
            let e' : lookup j B ≡ some i = ground (arith, removed j) in
            ground (arith, set-at none i, id_of j i e' diff)))
    ]
