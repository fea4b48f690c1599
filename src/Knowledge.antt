-- ===== src/Knowledge.antt =====
-- The knowledge store (src/vm/knowledge.rs): grounded facts under normalized keys.
pub mod Laws
use cubelang.Base.{
  ℕ, suc, ◌+◌, ◌==◌, List, [], ◌∷◌, ◌++◌, Bool, true, false, ◌&&◌, not, Option, none, some, leb,
  if◌then◌else◌, length, map, keep,
}
use cubelang.Base.Text.{Text}
use cubelang.Base.Dict.{Dict, lookup, insert, remove}
use cubelang.Base.Equal.{list_equal, list_eq}

-- `char::is_alphanumeric` and `char::to_lowercase`, which the language's Unicode tables give; a
-- character is its UTF-8 bytes.
pub record Unicode : Type 0 where
  pub is_alphanumeric : Text → Bool
  pub to_lowercase : Text → Text

pub record Fact : Type 0 where
  pub text : Text
  pub source : Text

pub record KnowledgeStore : Type 0 where
  pub facts : Dict Text (List Fact)

unfoldable pub new : KnowledgeStore
new = record { facts = [] }

-- The characters of a string: a byte from 0x80 to 0xBF continues the one before it.
abbrev continues : ℕ → Bool
continues b = leb 0x80 b && leb b 0xbf

abbrev attach : ℕ → List Text → List Text
attach b [] = (b ∷ []) ∷ []
attach b ([] ∷ cs) = (b ∷ []) ∷ cs
attach b ((c ∷ ch) ∷ cs) = if continues c then (b ∷ c ∷ ch) ∷ cs else (b ∷ []) ∷ (c ∷ ch) ∷ cs

unfoldable pub chars : Text → List Text
chars [] = []
chars (b ∷ bs) = attach b (chars bs)

module _ (uni : Unicode) where
  -- The loop over the characters, with the output so far and `prev_space`.
  unfoldable pub fold_chars : Text → Bool → List Text → Text
  fold_chars out prev_space [] = out
  fold_chars out prev_space (ch ∷ cs) =
      let (grown, spaced) =
        if uni.is_alphanumeric ch
        then (out ++ uni.to_lowercase ch, false)
        else if not prev_space
        then (out ++ b' ' ∷ [], true)
        else (out, prev_space) in
      fold_chars grown spaced cs

  -- `if out.ends_with(' ') { out.pop(); }`
  unfoldable pub trim_end : Text → Text
  trim_end [] = []
  trim_end (c ∷ []) = if c == b' ' then [] else c ∷ []
  trim_end (c ∷ d ∷ cs) = c ∷ trim_end (d ∷ cs)

  unfoldable pub normalize : Text → Text
  normalize s = trim_end (fold_chars [] true (chars s))

  -- `get(..).map(..).unwrap_or(&[])`
  unfoldable pub facts_of : Dict Text (List Fact) → Text → List Fact
  facts_of d k = elim (lookup k d) [ some fs ↦ fs | none ↦ [] ]

  unfoldable pub insert_fact : KnowledgeStore → Text → Text → Text → KnowledgeStore
  insert_fact store key text source =
      let k = normalize key in
      if length k == 0 then store else record {
        facts =
            insert k (facts_of store.facts k ++ record { text = text; source = source } ∷ [])
              store.facts;
      }

  unfoldable pub alias : KnowledgeStore → Text → Text → Bool × KnowledgeStore
  alias store name canonical =
      let c = normalize canonical in
      let a = normalize name in
      if length a == 0
      then (false, store)
      else if list_eq a c
      then (false, store)
      else elim (lookup c store.facts) [
        | some f ↦ (true, record { facts = insert a f store.facts })
        | none ↦ (false, store)
      ]

  unfoldable pub same : List Fact → List Fact → Bool
  same [] [] = true
  same [] (g ∷ gs) = false
  same (f ∷ fs) [] = false
  same (f ∷ fs) (g ∷ gs) = list_eq f.text g.text && list_eq f.source g.source && same fs gs

  -- `remove`: the key and every key with the same facts go; the answer is their number.
  unfoldable pub remove_fact : KnowledgeStore → Text → ℕ × KnowledgeStore
  remove_fact store key =
      let k = normalize key in
      elim (lookup k store.facts) [
        | none ↦ (0, store)
        | some gone ↦
            let rest = remove k store.facts in
            let kept = keep (λ (e : Text × List Fact). not (same e.1 gone)) rest in
            let aliases = keep (λ (e : Text × List Fact). same e.1 gone) rest in
            (1 + length aliases, record { facts = kept })
      ]

  -- The exact lookup of a mention.
  unfoldable pub lookup_facts : KnowledgeStore → Text → List Fact
  lookup_facts store mention = facts_of store.facts (normalize mention)
