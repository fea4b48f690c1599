-- ===== src/Base/Unique.antt =====
-- Dictionaries in which every key stands once, as those of `insert` and `remove` do.
use Prim.Native.Nat.{suc, ◌+◌}
use mathlib.Core.Path.{◌≡◌, refl}
use mathlib.Core.Bool.{Bool, true, false, not}
use mathlib.Core.List.{List, [], ◌∷◌}
use mathlib.Core.Option.{none, some}
use native.Mathlib.Omega.{arith}
use cubelang.Base.Tests.{if◌then◌else◌}
use cubelang.Base.Lists.{keep, length}
use cubelang.Base.Equal.{Equal}
use cubelang.Base.Dict.{Dict, lookup, insert, remove, lookup-insert, lookup-remove}

module _ {K V : Type 0} ⦃e : Equal K⦄ where
  abbrev pub IsUnique : Dict K V → Type 0
  IsUnique [] = Unit
  IsUnique ((k, v) ∷ m) = (lookup k m ≡ none) × IsUnique m

  pub insert-IsUnique : (k : K) (v : V) (m : Dict K V) → IsUnique m → IsUnique (insert k v m)
  unfolding insert lookup
  insert-IsUnique k v [] h = (refl, tt)
  insert-IsUnique k v ((j, w) ∷ m) h =
      elim (e.equal j k)
          as (λ b. (b ≡ e.equal j k) → IsUnique (if b then (j, v) ∷ m else (j, w) ∷ insert k v m)) [
            | true ↦ λ same. h
            | false ↦ λ apart. (
              ground (arith, lookup-insert k j v m, e.equal_iff k j, e.equal_iff j k),
              insert-IsUnique k v m h.1,
            )
          ]
        refl

  lookup-keep-none :
      (p : V → Bool) (k : K) (m : Dict K V)
      → lookup k m ≡ none
      → lookup k (keep (λ (x : K × V). p x.1) m) ≡ none
  unfolding lookup
  lookup-keep-none p k [] h = refl
  lookup-keep-none p k ((j, w) ∷ m) h = ground (arith, lookup-keep-none p k m)

  pub keep-IsUnique :
      (p : V → Bool) (m : Dict K V) → IsUnique m → IsUnique (keep (λ (x : K × V). p x.1) m)
  keep-IsUnique p [] h = tt
  keep-IsUnique p ((j, w) ∷ m) h =
      elim (p w)
        as (λ b.
          IsUnique
            (if b then (j, w) ∷ keep (λ (x : K × V). p x.1) m else keep (λ (x : K × V). p x.1) m)) [
              | true ↦ (lookup-keep-none p j m h.0, keep-IsUnique p m h.1)
              | false ↦ keep-IsUnique p m h.1
            ]

  -- A filter on the values keeps a key where it keeps its value.
  pub lookup-keep :
      (p : V → Bool) (k : K) (m : Dict K V)
      → IsUnique m
      → lookup k (keep (λ (x : K × V). p x.1) m)
        ≡ elim (lookup k m) [ none ↦ none | some v ↦ if p v then some v else none ]
  unfolding lookup
  lookup-keep p k [] h = refl
  lookup-keep p k ((j, w) ∷ m) h =
      ground (arith, lookup-keep p k m h.1, lookup-keep-none p j m h.0, e.equal_iff j k)

  pub remove-IsUnique : (k : K) (m : Dict K V) → IsUnique m → IsUnique (remove k m)
  unfolding remove
  remove-IsUnique k [] h = tt
  remove-IsUnique k ((j, w) ∷ m) h =
      elim (e.equal j k) as (λ b. IsUnique (if b then remove k m else (j, w) ∷ remove k m)) [
        | true ↦ remove-IsUnique k m h.1
        | false ↦ (ground (arith, lookup-remove k j m), remove-IsUnique k m h.1)
      ]

  remove_absent : (k : K) (m : Dict K V) → lookup k m ≡ none → remove k m ≡ m
  unfolding remove lookup
  remove_absent k [] h = refl
  remove_absent k ((j, w) ∷ m) h = ground (arith, remove_absent k m)

  pub length-remove :
      (k : K) (v : V) (m : Dict K V)
      → IsUnique m
      → lookup k m ≡ some v
      → suc (length (remove k m)) ≡ length m
  unfolding remove lookup
  length-remove k v [] h found = ground arith
  length-remove k v ((j, w) ∷ m) h found =
      ground (arith, length-remove k v m h.1, remove_absent j m h.0, e.equal_iff j k)

pub length-keep_split {ℓ} :
    {A : Type ℓ} (p : A → Bool) (xs : List A)
    → length (keep p xs) + length (keep (λ x. not (p x)) xs) ≡ length xs
length-keep_split p [] = refl
length-keep_split p (x ∷ xs) = ground (arith, length-keep_split p xs)
