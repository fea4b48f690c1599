-- ===== src/Memory/Store.antt =====
-- What the operations of the hippocampal memory keep and what they do to the map it stands for.
use cubelang.Base.{
  ℕ, List, [], ◌∷◌, ◌++◌, Bool-cases, true, false, Option, Option-cases, none, some, if◌then◌else◌,
  length, get_elem?, get_elem?-lt, set, ◌≡◌, refl, sym, ◌∙◌, ◌≢◌, ◌↔◌, ◌⊎◌, inl, inr, arith,
}
use cubelang.Base.Int.{ℤ}
use cubelang.Base.Text.{Text}
use cubelang.Base.Dict.{lookup, insert, remove}
use cubelang.Base.Equal.{list_equal, list_eq, list_eq_iff}
use cubelang.Vsa.Codebook.{Rng, get_cloned}
use cubelang.Vsa.Index
use cubelang.Memory.{
  MemoryTrace, HippocampalMemory, new, trace, store_new, store_at, store, first_live, recall,
  forget, get_exact,
}
use cubelang.Memory.Invariant.{
  Traces, tr, Agree, exact, exact_hit, exact_miss, push-Agree, push-exact, set-Agree, set-exact,
  forget-Agree, forget-exact,
}

-- The traces and the key table of the memory agree.
pub IsValid : {V : Type 0} → HippocampalMemory V → Type 0
IsValid m = Agree m.traces m.by_key

no_traces-IsValid :
    {V : Type 0} (m : HippocampalMemory V) → m.traces ≡ [] → m.by_key ≡ [] → IsValid m
unfolding IsValid lookup
no_traces-IsValid {V} m no_trace no_key =
    rw (no_trace, no_key)
      (record {
        keyed = λ k i e. ground arith;
        owned = λ i t e. ground (arith, get_elem?-lt {A = Option (MemoryTrace V)} [] i (some t) e);
      })

pub new-IsValid :
    {V : Type 0} (dim seed : ℕ) (m : HippocampalMemory V) → new dim seed ≡ some m → IsValid m
unfolding new
new-IsValid dim seed m e = no_traces-IsValid m (ground arith) (ground arith)

module _ {V : Type 0} (rng : Rng) (m : HippocampalMemory V) (k : Text) (v : V) where
  store_new_parts :
      (m' : HippocampalMemory V)
      → store_new rng m k v ≡ some m'
      → (m'.traces ≡ m.traces ++ trace rng k v ∷ [])
        × (m'.by_key ≡ insert k (length m.traces) m.by_key)
  unfolding store_new
  store_new_parts m' e =
      elim (Option-cases (Index.insert m.index (length m.traces) (get_cloned rng m.codebook k).0)) [
        | inl bad ↦ ground arith
        | inr (ix, good) ↦ ground arith
      ]

  store_at_parts :
      (m' : HippocampalMemory V) (id : ℕ) (w : Option (MemoryTrace V))
      → get_elem? m.traces id ≡ some w
      → store_at rng m id k v ≡ some m'
      → (m'.traces ≡ set m.traces id (trace rng k v)) × (m'.by_key ≡ m.by_key)
  unfolding store_at
  store_at_parts m' id w live e = ground arith

-- A valid memory stays valid when `store` succeeds, and then `get_exact` reads the stored payload
-- under the key and what it read before under every other key.
pub get_exact-store :
    {V : Type 0} (rng : Rng) (m : HippocampalMemory V) (k : Text) (v : V) (m' : HippocampalMemory V)
    → IsValid m
    → store rng m k v ≡ some m'
    → IsValid m' × ((j : Text) → get_exact m' j ≡ (if list_eq k j then some v else get_exact m j))
unfolding store get_exact IsValid
get_exact-store rng m k v m' valid e = elim (Option-cases (lookup k m.by_key)) [
  | inl absent ↦
      let (t, b) = store_new_parts rng m k v m' (ground arith) in
      rw (t, b)
        (
          push-Agree m.traces m.by_key valid k v absent,
          push-exact m.traces m.by_key valid k v absent,
        )
  | inr (id, found) ↦
      let (u, live) = valid.keyed k id found in
      let (t, b) =
        store_at_parts rng m k v m' id (some (record { key = k; value = u })) live (ground arith) in
      rw (t, b)
        (
          set-Agree m.traces m.by_key valid k v id found,
          set-exact m.traces m.by_key valid k v id found,
        )
]

forget_absent :
    {V : Type 0} (m : HippocampalMemory V) (k : Text)
    → lookup k m.by_key ≡ none
    → forget m k ≡ (false, m)
unfolding forget
forget_absent m k absent = rw (forget, absent) refl

forget_found :
    {V : Type 0} (m : HippocampalMemory V) (k : Text) (id : ℕ)
    → lookup k m.by_key ≡ some id
    → forget m k ≡ (
      true,
      record m {
        traces = set m.traces id none;
        by_key = remove k m.by_key;
        index = Index.remove m.index id;
      },
    )
unfolding forget
forget_found m k id found = rw (forget, found) refl

exact-get :
    {V : Type 0} (m : HippocampalMemory V) (k : Text) → get_exact m k ≡ exact m.traces m.by_key k
unfolding get_exact
exact-get m k = refl

-- `forget` on a valid memory keeps it valid; it answers whether the key was stored, and afterwards
-- `get_exact` reads nothing under the key and what it read before under every other key.
pub get_exact-forget :
    {V : Type 0} (m : HippocampalMemory V) (k : Text)
    → IsValid m
    → IsValid (forget m k).1
      × ((j : Text) → get_exact (forget m k).1 j ≡ (if list_eq k j then none else get_exact m j))
      × (((forget m k).0 ≡ true) ↔ (get_exact m k ≢ none))
unfolding IsValid get_exact
get_exact-forget m k valid = elim (Option-cases (lookup k m.by_key)) [
  | inl absent ↦
      let gone : get_exact m k ≡ none = exact_miss m.traces m.by_key k absent in
      rw (forget_absent m k absent) (
        valid,
        (λ j. elim (Bool-cases (list_eq k j)) [
          | inl same ↦ rw same (exact_miss m.traces m.by_key j (ground (arith, list_eq_iff k j)))
          | inr diff ↦ rw diff refl
        ]),
        ((λ e. ground arith), (λ n. ground arith)),
      )
  | inr (id, found) ↦
      let (u, live) = valid.keyed k id found in
      let here : get_exact m k ≡ some u = exact_hit m.traces m.by_key k u id found live in
      rw (forget_found m k id found) (
        forget-Agree m.traces m.by_key valid k u id found,
        forget-exact m.traces m.by_key valid k u id found,
        ((λ e. ground arith), (λ n. ground arith)),
      )
]

first_live-get_elem? :
    {V : Type 0} (rng : Rng) (T : Traces V) (hits : List (ℕ × ℤ)) (k : Text) (v : V) (sim : ℤ)
    → first_live rng T hits ≡ some (k, v, sim)
    → (id : ℕ) × (get_elem? T id ≡ some (tr k v))
unfolding first_live
first_live-get_elem? rng T [] k v sim e = ground arith
first_live-get_elem? rng T ((id, near) ∷ hits) k v sim e = elim (Option-cases (get_elem? T id)) [
  | inl out ↦ first_live-get_elem? rng T hits k v sim (ground arith)
  | inr (some t, live) ↦ (id, ground arith)
  | inr (none, dead) ↦ first_live-get_elem? rng T hits k v sim (ground arith)
]

recall_parts :
    {V : Type 0} (rng : Rng) (m : HippocampalMemory V) (q : Text) (a : Option (Text × V × ℤ))
    (m' : HippocampalMemory V)
    → recall rng m q ≡ some (a, m')
    → (m'.traces ≡ m.traces)
      × (m'.by_key ≡ m.by_key)
      × ((a ≡ none) ⊎ ((hits : List (ℕ × ℤ)) × (a ≡ first_live rng m.traces hits)))
unfolding recall
recall_parts rng m q a m' e = go m.index.entries refl
  where
    go :
        (es : List (ℕ × Index.PackedHypervec))
        → m.index.entries ≡ es
        → (m'.traces ≡ m.traces)
          × (m'.by_key ≡ m.by_key)
          × ((a ≡ none) ⊎ ((hits : List (ℕ × ℤ)) × (a ≡ first_live rng m.traces hits)))
    go [] p = ground arith
    go (x ∷ es) p = elim (Option-cases (Index.query m.index (get_cloned rng m.codebook q).0 8)) [
      | inl bad ↦ ground arith
      | inr (hits, good) ↦ (ground arith, ground arith, inr (hits, ground arith))
    ]

-- What `recall` answers on a valid memory is live: its payload is the one `get_exact` reads under
-- its key. It leaves every stored payload as it was.
pub get_exact-recall :
    {V : Type 0} (rng : Rng) (m : HippocampalMemory V) (q : Text) (a : Option (Text × V × ℤ))
    (m' : HippocampalMemory V)
    → IsValid m
    → recall rng m q ≡ some (a, m')
    → ((k : Text) (v : V) (sim : ℤ) → a ≡ some (k, v, sim) → get_exact m k ≡ some v)
      × ((j : Text) → get_exact m' j ≡ get_exact m j)
unfolding get_exact IsValid
get_exact-recall rng m q a m' valid e =
    let (t, b, from) = recall_parts rng m q a m' e in
    (
      (λ k v sim hit. elim from [
        | inl nothing ↦ ground arith
        | inr (hits, found) ↦
            let (id, live) = first_live-get_elem? rng m.traces hits k v sim (sym found ∙ hit) in
            exact_hit m.traces m.by_key k v id (valid.owned id (record { key = k; value = v }) live)
              live
      ]),
      (λ j. rw (t, b) refl),
    )
