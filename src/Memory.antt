-- ===== src/Memory.antt =====
-- The hippocampal memory (src/vm/memory.rs): values under text keys, recalled by the nearest key
-- vector. A payload is of any type. `none` is a panic of the index on a dimension.
mod Invariant
pub mod Store
use cubelang.Base.{
  ℕ, zero, suc, List, [], ◌∷◌, ◌++◌, Bool, true, false, Option, none, some, if◌then◌else◌, ◌==◌,
  length, get_elem?, set,
}
use cubelang.Base.Int.{ℤ}
use cubelang.Base.Text.{Text}
use cubelang.Base.Dict.{Dict, lookup, insert, remove}
use cubelang.Base.Equal.{list_equal}
use cubelang.Vsa.Hypervec.{Hypervec}
use cubelang.Vsa.Codebook.{Rng, Codebook, with_dim, get_cloned}
use cubelang.Vsa.Index
use cubelang.Vsa.Index.{HammingIndex}

pub record MemoryTrace (V : Type 0) : Type 0 where
  pub key : Text
  pub value : V

pub record HippocampalMemory (V : Type 0) : Type 0 where
  pub codebook : Codebook
  pub index : HammingIndex
  pub traces : List (Option (MemoryTrace V))
  pub by_key : Dict Text ℕ
  pub dim : ℕ

-- An empty memory; `none` is the panic of the codebook on its dimension.
unfoldable pub new : {V : Type 0} → ℕ → ℕ → Option (HippocampalMemory V)
new dim seed = elim (with_dim seed dim) [
  | none ↦ none
  | some cb ↦
      some (record { codebook = cb; index = Index.new; traces = []; by_key = []; dim = dim })
]

module _ (rng : Rng) {V : Type 0} where
  abbrev pub trace : Text → V → Option (MemoryTrace V)
  trace key value = some (record { key = key; value = value })

  -- A new trace behind the others, under the next id.
  unfoldable pub store_new : HippocampalMemory V → Text → V → Option (HippocampalMemory V)
  store_new m key value =
      let id = length m.traces in
      let (v, cb) = get_cloned rng m.codebook key in
      elim (Index.insert m.index id v) [
        | none ↦ none
        | some ix ↦ some (record m {
          codebook = cb;
          index = ix;
          traces = m.traces ++ trace key value ∷ [];
          by_key = insert key id m.by_key;
        })
      ]

  unfoldable pub store_at : HippocampalMemory V → ℕ → Text → V → Option (HippocampalMemory V)
  store_at m id key value = elim (get_elem? m.traces id) [
    | some _ ↦ some (record m { traces = set m.traces id (trace key value) })
    | none ↦ store_new m key value
  ]

  -- `store`: an existing key has its payload replaced.
  unfoldable pub store : HippocampalMemory V → Text → V → Option (HippocampalMemory V)
  store m key value = elim (lookup key m.by_key) [
    | some id ↦ store_at m id key value
    | none ↦ store_new m key value
  ]

  -- The first hit whose trace is live.
  unfoldable pub first_live : List (Option (MemoryTrace V)) → List (ℕ × ℤ) → Option (Text × V × ℤ)
  first_live traces [] = none
  first_live traces ((id, sim) ∷ hits) = elim (get_elem? traces id) [
    | some t ↦ elim t [ some tr ↦ some (tr.key, tr.value, sim) | none ↦ first_live traces hits ]
    | none ↦ first_live traces hits
  ]

  -- `recall`: the nearest of eight; the query key's vector is cached.
  unfoldable pub recall :
      HippocampalMemory V → Text → Option (Option (Text × V × ℤ) × HippocampalMemory V)
  recall m key =
      let (q, cb) = get_cloned rng m.codebook key in
      elim m.index.entries [
        | [] ↦ some (none, m)
        | _ ∷ _ ↦ elim (Index.query m.index q 8) [
          | none ↦ none
          | some hits ↦ some (first_live m.traces hits, record m { codebook = cb })
        ]
      ]

module _ {V : Type 0} where
  -- `forget`: the slot is emptied, and the key and the index entry are removed.
  unfoldable pub forget : HippocampalMemory V → Text → Bool × HippocampalMemory V
  forget m key = elim (lookup key m.by_key) [
    | none ↦ (false, m)
    | some id ↦ (
      true,
      record m {
        traces = set m.traces id none;
        by_key = remove key m.by_key;
        index = Index.remove m.index id;
      },
    )
  ]

  unfoldable pub payload : Option (Option (MemoryTrace V)) → Option V
  payload (some (some tr)) = some tr.value
  payload (some none) = none
  payload none = none

  unfoldable pub get_exact : HippocampalMemory V → Text → Option V
  unfolding payload
  get_exact m key = elim (lookup key m.by_key) [
    | none ↦ none
    | some id ↦ payload (get_elem? m.traces id)
  ]
