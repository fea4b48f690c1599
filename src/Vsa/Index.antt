-- ===== src/Vsa/Index.antt =====
-- The exact nearest-neighbour index (src/vm/index.rs: `HammingIndex`). The sort of the standard
-- library is an insertion sort here; where distances tie it keeps the order of insertion.
use cubelang.Base.{
  ℕ, ◌*◌, List, [], ◌∷◌, ◌++◌, Option, none, some, map, leb, ◌==◌, not, if◌then◌else◌, length, take,
  keep,
}
use cubelang.Base.Int.{ℤ, pos, ◌-ℤ◌}
use cubelang.Vsa.Hypervec.{Hypervec, pack_bits, hamming_dist_packed}

pub record PackedHypervec : Type 0 where
  pub words : List ℕ
  pub dim : ℕ

unfoldable pub pack : Hypervec → PackedHypervec
pack v = record { words = pack_bits v; dim = length v }

pub record HammingIndex : Type 0 where
  pub entries : List (ℕ × PackedHypervec)
  pub dim : ℕ

abbrev pub new : HammingIndex
new = record { entries = []; dim = 0 }

-- `none` is the panic on a dimension that differs from the first vector's.
unfoldable pub insert : HammingIndex → ℕ → Hypervec → Option HammingIndex
insert ix id v =
    if ix.dim == 0
    then some (record { entries = ix.entries ++ (id, pack v) ∷ []; dim = length v })
    else if length v == ix.dim
    then some (record ix { entries = ix.entries ++ (id, pack v) ∷ [] })
    else none

unfoldable pub remove : HammingIndex → ℕ → HammingIndex
remove ix id = record ix { entries = keep (λ (e : ℕ × PackedHypervec). not (e.0 == id)) ix.entries }

-- `sort_unstable_by_key` on the second component.
unfoldable pub insert_sorted : ℕ × ℕ → List (ℕ × ℕ) → List (ℕ × ℕ)
insert_sorted e [] = e ∷ []
insert_sorted e (x ∷ xs) = if leb e.1 x.1 then e ∷ x ∷ xs else x ∷ insert_sorted e xs

unfoldable pub sort_by_distance : List (ℕ × ℕ) → List (ℕ × ℕ)
unfolding insert_sorted
sort_by_distance [] = []
sort_by_distance (x ∷ xs) = insert_sorted x (sort_by_distance xs)

unfoldable pub distances : PackedHypervec → List (ℕ × PackedHypervec) → List (ℕ × ℕ)
distances q es = map (λ (e : ℕ × PackedHypervec). (e.0, hamming_dist_packed q.words e.1.words)) es

-- The `k` nearest entries with the numerators of their similarities over the dimension; `none` is
-- the panic on a query of another dimension.
unfoldable pub query : HammingIndex → Hypervec → ℕ → Option (List (ℕ × ℤ))
query ix q k = elim ix.entries [
  | [] ↦ some []
  | _ ∷ _ ↦
      if length q == ix.dim
      then some (
          map (λ (e : ℕ × ℕ). (e.0, pos ix.dim -ℤ pos (2 * e.1)))
            (take k (sort_by_distance (distances (pack q) ix.entries))))
      else none
]
