-- ===== src/Examples/Vsa.antt =====
-- Runs of the theorems on hypervectors, the codebook and the index, at four dimensions.
use cubelang.Base.{
  ◌↔◌, ◌≢◌, take, ℕ, List, [], ◌∷◌, ◌≡◌, refl, ◌⊎◌, inl, inr, length, All, all, ◌==◌, some, none,
  if◌then◌else◌, arith,
}
use cubelang.Base.Int.{ℤ, pos, negsuc, ◌≤ℤ◌, ◌-ℤ◌}
use cubelang.Base.Text.{lit}
use cubelang.Vsa.Hypervec.{
  Hypervec, IsBipolar, hamming_dist, bind, unbind, bundle, permute, unpermute, sign_from_sum,
  add_all, zip_with, pack_bits, count_ones, hamming_dist_packed, replicate,
}
use cubelang.Vsa.Hamming.{differences, hamming_dist-differences}
use cubelang.Vsa.Algebra.{unbind-bind, bind_comm, unpermute-permute}
use cubelang.Vsa.Bundle.{IsI16, add_all-IsI16, bundle-majority}
use cubelang.Vsa.Codebook.{
  Codebook, with_dim, generate, get_cloned, IsCoherent, get_cloned-generate, with_dim-IsCoherent,
}
use cubelang.Vsa.Index.{HammingIndex, PackedHypervec, pack, query, sort_by_distance, distances}
use cubelang.Vsa.Nearest.{IsDescending, IsIn, IsHit, near, query-nearest}
use cubelang.Examples.Parameters.{constant_rng}

abbrev plus : ℤ
plus = pos 1

abbrev minus : ℤ
minus = negsuc 0

abbrev agent : Hypervec
agent = plus ∷ minus ∷ minus ∷ plus ∷ []

abbrev alice : Hypervec
alice = minus ∷ minus ∷ plus ∷ plus ∷ []

agent-IsBipolar : IsBipolar agent
agent-IsBipolar = (inl refl, (inr refl, (inr refl, (inl refl, tt))))

alice-IsBipolar : IsBipolar alice
alice-IsBipolar = (inr refl, (inr refl, (inl refl, (inl refl, tt))))

unbind-bind_example :
    (pair : Hypervec) × (bind agent alice ≡ some pair)
    × IsBipolar pair
    × (length pair ≡ 4)
    × (unbind pair agent ≡ some alice)
    × (unbind pair alice ≡ some agent)
unbind-bind_example = unbind-bind agent alice agent-IsBipolar alice-IsBipolar refl

hamming_dist-differences_example : hamming_dist agent alice ≡ some (differences agent alice)
hamming_dist-differences_example =
    hamming_dist-differences agent alice agent-IsBipolar alice-IsBipolar refl

bind_comm_example :
    (bind agent alice ≡ bind alice agent)
    × ((bind agent alice ≡ none) ↔ (length agent ≢ length alice))
bind_comm_example = bind_comm agent alice

unpermute-permute_example : unpermute (permute agent 6) 6 ≡ agent
unpermute-permute_example = unpermute-permute agent 6

add_all-IsI16_example :
    All IsI16 (add_all (replicate 4 (pos 0)) (take 2 (agent ∷ alice ∷ agent ∷ [])))
add_all-IsI16_example =
    add_all-IsI16 4 2 (agent ∷ alice ∷ agent ∷ [])
      (agent-IsBipolar, (alice-IsBipolar, (agent-IsBipolar, tt))) (omega arith)

bundle-majority_example :
    (bundle [] ≡ none)
    × (bundle (agent ∷ alice ∷ []) ≡ (
        if all (λ (w : Hypervec). length w == 4) (alice ∷ [])
        then some (sign_from_sum (add_all (replicate 4 (pos 0)) (agent ∷ alice ∷ [])))
        else none))
bundle-majority_example = bundle-majority agent (alice ∷ [])

abbrev book : Codebook
book = record { seed = 42; dim = 4; cache = [] }

book_made : with_dim 42 4 ≡ some book
unfolding with_dim
book_made = refl

get_cloned-generate_example :
    ((get_cloned constant_rng book (lit "x")).0 ≡ generate constant_rng book (lit "x"))
    × (length (get_cloned constant_rng book (lit "x")).0 ≡ 4)
    × IsBipolar (get_cloned constant_rng book (lit "x")).0
    × ((get_cloned constant_rng book (lit "x")).1.seed ≡ book.seed)
    × ((get_cloned constant_rng book (lit "x")).1.dim ≡ book.dim)
    × IsCoherent constant_rng (get_cloned constant_rng book (lit "x")).1
get_cloned-generate_example =
    get_cloned-generate constant_rng book (lit "x")
      (with_dim-IsCoherent constant_rng 42 4 book book_made)

abbrev pair_index : HammingIndex
pair_index = record { entries = (0, pack agent) ∷ (1, pack alice) ∷ []; dim = 4 }

abbrev nearest : List (ℕ × ℤ)
nearest = (1, pos 4) ∷ []

asked : query pair_index alice 1 ≡ some nearest
unfolding query sort_by_distance distances hamming_dist_packed zip_with pack pack_bits replicate
    count_ones ◌-ℤ◌
asked = refl

query-nearest_example :
    (length nearest ≡ 1)
    × IsDescending nearest
    × All (IsHit pair_index alice) nearest
    × ((e : ℕ × PackedHypervec)
        → IsIn e pair_index.entries
        → IsIn (near pair_index alice e) nearest
          ⊎ All (λ (h : ℕ × ℤ). (near pair_index alice e).1 ≤ℤ h.1) nearest)
query-nearest_example = query-nearest pair_index alice 1 nearest asked
