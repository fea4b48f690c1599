-- ===== src/Examples/Knowledge.antt =====
-- Runs of the knowledge store's theorems: two facts under "Mercury", and an alias.
use cubelang.Base.{
  arith, ◌+◌, ◌==◌, [], ◌∷◌, ◌++◌, ◌&&◌, not, ◌≡◌, ◌≢◌, ◌↔◌, refl, none, some, if◌then◌else◌,
  length, true,
}
use cubelang.Base.Text.{Text, lit}
use cubelang.Base.Dict.{lookup}
use cubelang.Base.Equal.{list_equal, list_eq}
use cubelang.Knowledge.{
  Fact, KnowledgeStore, normalize, insert_fact, alias, remove_fact, lookup_facts, chars, fold_chars,
  trim_end,
}
use cubelang.Knowledge.Laws.{
  lookup_facts-insert_fact, lookup_facts-alias, IsValid, knowledge-IsValid, without,
  lookup_facts-remove_fact,
}
use cubelang.Examples.Parameters.{ascii}

abbrev fact : Text → Fact
fact text = record { text = text; source = lit "atlas" }

abbrev store : KnowledgeStore
store = record {
  facts =
      (lit "mercury", fact (lit "planet") ∷ fact (lit "element") ∷ [])
      ∷ (lit "quicksilver", fact (lit "element") ∷ [])
      ∷ [];
}

store-IsValid : IsValid ascii store
unfolding lookup
store-IsValid =
    ((refl, (refl, tt)), ((ground arith, ground arith), ((ground arith, ground arith), tt)))

-- "  Printing-PRESS!" is folded to its key.
normalized : normalize ascii (lit "  Printing-PRESS!") ≡ lit "printing press"
unfolding normalize chars fold_chars trim_end
normalized = refl

lookup_facts-insert_fact_example :
    lookup_facts ascii
      (insert_fact ascii store (lit "Mercury") (lit "god") (lit "atlas"))
      (lit "MERCURY")
    ≡ (if not (length (normalize ascii (lit "Mercury")) == 0)
          && list_eq (normalize ascii (lit "Mercury")) (normalize ascii (lit "MERCURY"))
        then lookup_facts ascii store (lit "MERCURY") ++ fact (lit "god") ∷ []
        else lookup_facts ascii store (lit "MERCURY"))
lookup_facts-insert_fact_example =
    lookup_facts-insert_fact ascii store (lit "Mercury") (lit "god") (lit "atlas") (lit "MERCURY")

lookup_facts-alias_example :
    (((alias ascii store (lit "Hermes") (lit "Mercury")).0 ≡ true) ↔ (
      (length (normalize ascii (lit "Hermes")) ≢ 0)
      × (normalize ascii (lit "Hermes") ≢ normalize ascii (lit "Mercury"))
      × (lookup (normalize ascii (lit "Mercury")) store.facts ≢ none)))
    × (lookup_facts ascii (alias ascii store (lit "Hermes") (lit "Mercury")).1 (lit "hermes") ≡ (
        if (alias ascii store (lit "Hermes") (lit "Mercury")).0
          && list_eq (normalize ascii (lit "Hermes")) (normalize ascii (lit "hermes"))
        then lookup_facts ascii store (lit "Mercury")
        else lookup_facts ascii store (lit "hermes")))
lookup_facts-alias_example =
    lookup_facts-alias ascii store (lit "Hermes") (lit "Mercury") (lit "hermes")

knowledge-IsValid_example :
    IsValid ascii (insert_fact ascii store (lit "a") (lit "b") (lit "c"))
    × IsValid ascii (alias ascii store (lit "a") (lit "b")).1
    × IsValid ascii (remove_fact ascii store (lit "a")).1
knowledge-IsValid_example =
    knowledge-IsValid ascii store (lit "a") (lit "b") (lit "c") store-IsValid

lookup_facts-remove_fact_example :
    (lookup_facts ascii (remove_fact ascii store (lit "Mercury")).1 (lit "quicksilver")
      ≡ (elim (lookup (normalize ascii (lit "Mercury")) store.facts) [
        | none ↦ lookup_facts ascii store (lit "quicksilver")
        | some gone ↦ without ascii gone (lookup_facts ascii store (lit "quicksilver"))
      ]))
    × ((remove_fact ascii store (lit "Mercury")).0
          + length (remove_fact ascii store (lit "Mercury")).1.facts
        ≡ length store.facts)
lookup_facts-remove_fact_example =
    lookup_facts-remove_fact ascii store (lit "Mercury") (lit "quicksilver") store-IsValid.0
