-- ===== src/Vsa/Codebook.antt =====
-- The codebook (src/vm/codebook.rs) and the random vectors that fill it (src/vm/hypervec.rs:
-- `random_with_rng`). The generator of the `rand` crate is third-party code and a parameter.
use Prim.Native.Nat.{bit_xor}
use cubelang.Base.{
  zero, suc, Bool, true, false, ◌&&◌, ◌==◌, ltb, if◌then◌else◌, Option, ap, sym, subst, ◌∙◌, ℕ, ◌+◌,
  ◌*◌, ◌%◌, [], ◌∷◌, ◌≡◌, refl, Option-cases, inl, inr, none, some, length, arith,
}
use cubelang.Base.Int.{word, pos, negsuc}
use cubelang.Base.Text.{Text}
use cubelang.Base.Dict.{Dict, lookup, insert, lookup-insert}
use cubelang.Base.Equal.{list_equal, list_eq_iff}
use cubelang.Vsa.Hypervec.{Hypervec, IsSign, IsBipolar}

-- `SmallRng`: its states, `seed_from_u64`, and `gen_bool(0.5)`.
pub record Rng : Type 1 where
  pub State : Type 0
  pub seed_from_u64 : ℕ → State
  pub gen_bool : State → Bool × State

pub record Codebook : Type 0 where
  pub seed : ℕ
  pub dim : ℕ
  pub cache : Dict Text Hypervec

-- `none` is the panic on a dimension that is zero or odd.
unfoldable pub with_dim : ℕ → ℕ → Option Codebook
with_dim seed dim =
    if ltb 0 dim && (dim % 2 == 0)
    then some (record { seed = seed; dim = dim; cache = [] })
    else none

abbrev pub fnv_prime : ℕ
fnv_prime = 0x100000001b3

abbrev pub fnv_offset : ℕ
fnv_offset = 0xcbf29ce484222325

fnv_bytes : ℕ → Text → ℕ
fnv_bytes h [] = h
fnv_bytes h (b ∷ bs) = fnv_bytes ((bit_xor h b * fnv_prime) % word) bs

-- The seed of a symbol, by wrapping 64-bit arithmetic.
unfoldable pub fnv_mix : ℕ → Text → ℕ
unfolding fnv_bytes
fnv_mix base s = fnv_bytes ((fnv_offset + base * fnv_prime % word) % word) s

module _ (rng : Rng) where
  -- One draw for each element, in their order.
  unfoldable pub random_with_rng : ℕ → rng.State → Hypervec
  random_with_rng zero s = []
  random_with_rng (suc dim) s =
      let (up, next) = rng.gen_bool s in (if up then pos 1 else negsuc 0) ∷ random_with_rng dim next

  -- The vector that a symbol gets where it is not cached.
  unfoldable pub generate : Codebook → Text → Hypervec
  generate cb symbol = random_with_rng cb.dim (rng.seed_from_u64 (fnv_mix cb.seed symbol))

  -- `get_cloned`: the cached vector, or a new one, which is cached.
  unfoldable pub get_cloned : Codebook → Text → Hypervec × Codebook
  get_cloned cb symbol =
      let fresh = generate cb symbol in
      elim (lookup symbol cb.cache) [
        | some v ↦ (v, cb)
        | none ↦ (fresh, record cb { cache = insert symbol fresh cb.cache })
      ]

  length-random : (dim : ℕ) (s : rng.State) → length (random_with_rng dim s) ≡ dim
  unfolding random_with_rng
  length-random zero s = refl
  length-random (suc dim) s = ap suc (length-random dim (rng.gen_bool s).1)

  IsSign-drawn : (up : Bool) → IsSign (if up then pos 1 else negsuc 0)
  IsSign-drawn true = inl refl
  IsSign-drawn false = inr refl

  random-IsBipolar : (dim : ℕ) (s : rng.State) → IsBipolar (random_with_rng dim s)
  unfolding random_with_rng
  random-IsBipolar zero s = tt
  random-IsBipolar (suc dim) s =
      (IsSign-drawn (rng.gen_bool s).0, random-IsBipolar dim (rng.gen_bool s).1)

  generated :
      (cb : Codebook) (s : Text) → (length (generate cb s) ≡ cb.dim) × IsBipolar (generate cb s)
  unfolding generate
  generated cb s =
      let drawn = rng.seed_from_u64 (fnv_mix cb.seed s) in
      (length-random cb.dim drawn, random-IsBipolar cb.dim drawn)

  -- Every cached vector is the one that its symbol generates.
  abbrev pub IsCoherent : Codebook → Type 0
  IsCoherent cb = (s : Text) (v : Hypervec) → lookup s cb.cache ≡ some v → v ≡ generate cb s

  get_cloned_hit :
      (cb : Codebook) (s : Text) (v : Hypervec)
      → lookup s cb.cache ≡ some v
      → get_cloned cb s ≡ (v, cb)
  unfolding get_cloned
  get_cloned_hit cb s v h = rw (h, get_cloned)

  get_cloned_miss :
      (cb : Codebook) (s : Text)
      → lookup s cb.cache ≡ none
      → get_cloned cb s ≡ (generate cb s, record cb { cache = insert s (generate cb s) cb.cache })
  unfolding get_cloned
  get_cloned_miss cb s h = rw (h, get_cloned)

  insert-IsCoherent :
      (cb : Codebook) (s : Text)
      → IsCoherent cb
      → IsCoherent (record cb { cache = insert s (generate cb s) cb.cache })
  unfolding generate
  insert-IsCoherent cb s h t v e = ground (
    arith,
    lookup-insert s t (random_with_rng cb.dim (rng.seed_from_u64 (fnv_mix cb.seed s))) cb.cache,
    list_eq_iff s t,
    h t v,
  )

  -- A lookup in a coherent codebook returns the symbol's own vector, bipolar and of the codebook's
  -- dimension, whatever was looked up before, and keeps the seed, the dimension and the coherence.
  pub get_cloned-generate :
      (cb : Codebook) (s : Text)
      → IsCoherent cb
      → ((get_cloned cb s).0 ≡ generate cb s)
        × (length (get_cloned cb s).0 ≡ cb.dim)
        × IsBipolar (get_cloned cb s).0
        × ((get_cloned cb s).1.seed ≡ cb.seed)
        × ((get_cloned cb s).1.dim ≡ cb.dim)
        × IsCoherent (get_cloned cb s).1
  get_cloned-generate cb s h = elim (Option-cases (lookup s cb.cache)) [
    | inl e ↦
        let (dim, signs) = generated cb s in
        rw (get_cloned_miss cb s e) (refl, dim, signs, refl, refl, insert-IsCoherent cb s h)
    | inr (v, e) ↦
        let (dim, signs) = generated cb s in
        rw (get_cloned_hit cb s v e)
          (h s v e, ap length (h s v e) ∙ dim, subst IsBipolar (sym (h s v e)) signs, refl, refl, h)
  ]

  pub empty-IsCoherent : (cb : Codebook) → cb.cache ≡ [] → IsCoherent cb
  unfolding lookup
  empty-IsCoherent cb none_cached s v e =
      let never : lookup s [] ≡ some v =
        subst (λ (d : Dict Text Hypervec). lookup s d ≡ some v) none_cached e in
      cc

  pub with_dim-IsCoherent :
      (seed dim : ℕ) (cb : Codebook) → with_dim seed dim ≡ some cb → IsCoherent cb
  unfolding with_dim
  with_dim-IsCoherent seed dim cb e = empty-IsCoherent cb (ground arith)
