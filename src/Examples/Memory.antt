-- ===== src/Examples/Memory.antt =====
-- Runs of the theorems on the memory: "sun" is stored, then recalled and forgotten.
use cubelang.Base.{ℕ, [], ◌∷◌, ◌≡◌, ◌≢◌, ◌↔◌, refl, true, Option, some, none, if◌then◌else◌}
use cubelang.Base.Int.{ℤ, pos, ◌-ℤ◌}
use cubelang.Base.Text.{Text, lit}
use cubelang.Base.Equal.{list_eq}
use cubelang.Base.Dict.{lookup, insert}
use cubelang.Vsa.Index
use cubelang.Vsa.Codebook.{with_dim, get_cloned, generate, fnv_mix, random_with_rng}
use cubelang.Vsa.Hypervec.{
  Hypervec, pack_bits, replicate, zip_with, hamming_dist_packed, count_ones,
}
use cubelang.Memory.{
  HippocampalMemory, trace, new, store, store_new, recall, first_live, forget, get_exact,
}
use cubelang.Memory.Store.{
  IsValid, new-IsValid, get_exact-store, get_exact-recall, get_exact-forget,
}
use cubelang.Examples.Parameters.{constant_rng}

abbrev empty : HippocampalMemory ℕ
empty = record {
  codebook = record { seed = 42; dim = 4; cache = [] };
  index = Index.new;
  traces = [];
  by_key = [];
  dim = 4;
}

emptied : new 4 42 ≡ some empty
unfolding new with_dim
emptied = refl

abbrev sun : Text
sun = lit "sun"

abbrev ones4 : Hypervec
ones4 = pos 1 ∷ pos 1 ∷ pos 1 ∷ pos 1 ∷ []

abbrev stored : HippocampalMemory ℕ
stored = record {
  codebook = record { seed = 42; dim = 4; cache = (sun, ones4) ∷ [] };
  index = record { entries = (0, record { words = 15 ∷ []; dim = 4 }) ∷ []; dim = 4 };
  traces = trace constant_rng sun 7 ∷ [];
  by_key = (sun, 0) ∷ [];
  dim = 4;
}

stored_by : store constant_rng empty sun 7 ≡ some stored
unfolding store store_new lookup insert get_cloned generate fnv_mix Index.insert Index.pack
    pack_bits replicate random_with_rng
stored_by = refl

get_exact-store_example :
    IsValid stored
    × ((j : Text) → get_exact stored j ≡ (if list_eq sun j then some 7 else get_exact empty j))
get_exact-store_example =
    get_exact-store constant_rng empty sun 7 stored (new-IsValid 4 42 empty emptied) stored_by

recalled_by : recall constant_rng stored sun ≡ some (some (sun, 7, pos 4), stored)
unfolding recall Index.query get_cloned lookup first_live Index.sort_by_distance Index.distances
    ◌-ℤ◌ hamming_dist_packed zip_with Index.pack pack_bits replicate count_ones
recalled_by = refl

get_exact-recall_example :
    ((k : Text) (v : ℕ) (sim : ℤ)
      → ◌≡◌ {A = Option (Text × ℕ × ℤ)} (some (sun, 7, pos 4)) (some (k, v, sim))
      → get_exact stored k ≡ some v)
    × ((j : Text) → get_exact stored j ≡ get_exact stored j)
get_exact-recall_example =
    get_exact-recall constant_rng stored sun (some (sun, 7, pos 4)) stored
      (get_exact-store constant_rng empty sun 7 stored (new-IsValid 4 42 empty emptied) stored_by).0
      recalled_by

get_exact-forget_example :
    IsValid (forget stored sun).1
    × ((j : Text)
        → get_exact (forget stored sun).1 j ≡ (if list_eq sun j then none else get_exact stored j))
    × (((forget stored sun).0 ≡ true) ↔ (get_exact stored sun ≢ none))
get_exact-forget_example =
    get_exact-forget stored sun
      (get_exact-store constant_rng empty sun 7 stored (new-IsValid 4 42 empty emptied) stored_by).0
