-- ===== src/Knowledge/Laws.antt =====
-- What the operations of the knowledge store do to what a lookup of any mention answers.
use cubelang.Base.{
  All, Bool-cases, length-append, ◌+◌, ◌==◌, List, [], ◌∷◌, ◌++◌, true, ◌&&◌, not, Option-cases,
  none, some, if◌then◌else◌, length, keep, ◌≡◌, ◌≢◌, ◌↔◌, inl, inr, refl, arith,
}
use cubelang.Base.Text.{Text}
use cubelang.Base.Unique.{
  IsUnique, insert-IsUnique, keep-IsUnique, remove-IsUnique, lookup-keep, length-remove,
  length-keep_split,
}
use cubelang.Base.Dict.{Dict, lookup, insert, remove, lookup-insert, lookup-remove}
use cubelang.Base.Equal.{list_equal, list_eq, list_eq_iff, list_eq_refl}
use cubelang.Knowledge.{
  Unicode, Fact, KnowledgeStore, normalize, facts_of, insert_fact, alias, same, remove_fact,
  lookup_facts,
}

module _ (uni : Unicode) where
  -- An inserted fact is answered last under every mention of its key, and nothing else changes; a
  -- key that normalizes to nothing inserts nothing.
  pub lookup_facts-insert_fact :
      (store : KnowledgeStore) (key text source mention : Text)
      → lookup_facts uni (insert_fact uni store key text source) mention ≡ (
          if not (length (normalize uni key) == 0)
            && list_eq (normalize uni key) (normalize uni mention)
          then lookup_facts uni store mention ++ record { text = text; source = source } ∷ []
          else lookup_facts uni store mention)
  unfolding lookup_facts insert_fact facts_of
  lookup_facts-insert_fact store key text source mention = ground (
    arith,
    list_eq_iff (normalize uni key) (normalize uni mention),
    lookup-insert (normalize uni key) (normalize uni mention)
        (facts_of uni store.facts (normalize uni key)
          ++ record { text = text; source = source } ∷ [])
        store.facts,
  )

  -- `alias` succeeds exactly where the canonical name has an entry and the alias is a new name for
  -- it; then every mention of the alias answers the canonical facts. No other mention changes.
  pub lookup_facts-alias :
      (store : KnowledgeStore) (name canonical mention : Text)
      → (((alias uni store name canonical).0 ≡ true) ↔ (
          (length (normalize uni name) ≢ 0)
          × (normalize uni name ≢ normalize uni canonical)
          × (lookup (normalize uni canonical) store.facts ≢ none)))
        × (lookup_facts uni (alias uni store name canonical).1 mention ≡ (
            if (alias uni store name canonical).0
              && list_eq (normalize uni name) (normalize uni mention)
            then lookup_facts uni store canonical
            else lookup_facts uni store mention))
  unfolding lookup_facts alias facts_of
  lookup_facts-alias store name canonical mention =
      let c = normalize uni canonical in
      let a = normalize uni name in
      elim (Option-cases (lookup c store.facts)) [
        | inl none_there ↦ (((λ e. ground arith), (λ h. ground arith)), ground arith)
        | inr (f, there) ↦ (
          ((λ e. ground (arith, list_eq_iff a c)), (λ h. ground (arith, list_eq_iff a c))),
          ground (
            arith,
            list_eq_iff a c,
            list_eq_iff a (normalize uni mention),
            lookup-insert a (normalize uni mention) f store.facts,
          ),
        )
      ]

  kept_facts : List Fact → Dict Text (List Fact) → Dict Text (List Fact)
  kept_facts gone d = keep (λ (e : Text × List Fact). not (same uni e.1 gone)) d

  remove_fact_absent :
      (store : KnowledgeStore) (key : Text)
      → lookup (normalize uni key) store.facts ≡ none
      → remove_fact uni store key ≡ (0, store)
  unfolding remove_fact
  remove_fact_absent store key h = rw (h, remove_fact) refl

  remove_fact_found :
      (store : KnowledgeStore) (key : Text) (gone : List Fact)
      → lookup (normalize uni key) store.facts ≡ some gone
      → remove_fact uni store key ≡ (
        1
            + length (
                keep
                  (λ (e : Text × List Fact). same uni e.1 gone)
                  (remove (normalize uni key) store.facts)),
        record { facts = kept_facts gone (remove (normalize uni key) store.facts) },
      )
  unfolding remove_fact kept_facts
  remove_fact_found store key gone h = rw (h, remove_fact) refl

  same_refl : (fs : List Fact) → same uni fs fs ≡ true
  unfolding same
  same_refl [] = refl
  same_refl (f ∷ fs) = ground (arith, same_refl fs, list_eq_refl f.text, list_eq_refl f.source)

  -- What is left of a mention's facts when those of a key are taken out.
  abbrev pub without : List Fact → List Fact → List Fact
  without gone fs = if same uni fs gone then [] else fs

  -- After a removal from a store in which each key stands once, a mention of the key or of any entry
  -- with the same facts answers nothing, and any other mention answers what it did; where the key
  -- has no entry, nothing changes. The answer is the number of entries that went.
  pub lookup_facts-remove_fact :
      (store : KnowledgeStore) (key mention : Text)
      → IsUnique store.facts
      → (lookup_facts uni (remove_fact uni store key).1 mention
          ≡ (elim (lookup (normalize uni key) store.facts) [
            | none ↦ lookup_facts uni store mention
            | some gone ↦ without gone (lookup_facts uni store mention)
          ]))
        × ((remove_fact uni store key).0 + length (remove_fact uni store key).1.facts
            ≡ length store.facts)
  unfolding lookup_facts facts_of kept_facts
  lookup_facts-remove_fact store key mention valid =
      elim (Option-cases (lookup (normalize uni key) store.facts)) [
        | inl absent ↦ rw (absent, remove_fact_absent store key absent) (refl, omega arith)
        | inr (gone, found) ↦
            let k = normalize uni key in
            let rest = remove k store.facts in
            let once = remove-IsUnique k store.facts valid in
            let split = length-keep_split (λ (e : Text × List Fact). same uni e.1 gone) rest in
            let one = length-remove k gone store.facts valid found in
            rw (found, remove_fact_found store key gone found)
              (
                ground (
                  arith,
                  lookup-keep (λ (fs : List Fact). not (same uni fs gone)) (normalize uni mention)
                      rest once,
                  lookup-remove k (normalize uni mention) store.facts,
                  same_refl gone,
                  list_eq_iff k (normalize uni mention),
                ),
                omega arith,
              )
      ]

  -- An entry as the operations keep it: its key is not empty and it has a fact.
  abbrev pub IsEntry : Text × List Fact → Type 0
  IsEntry e = (length e.0 ≢ 0) × (length e.1 ≢ 0)

  insert-IsEntry :
      (k : Text) (fs : List Fact) (d : Dict Text (List Fact))
      → IsEntry (k, fs)
      → All IsEntry d
      → All IsEntry (insert k fs d)
  unfolding insert
  insert-IsEntry k fs [] h p = (h, tt)
  insert-IsEntry k fs ((j, gs) ∷ d) h p = elim (Bool-cases (list_eq j k)) [
    | inl same ↦ rw same ((p.0.0, h.1), p.1)
    | inr other ↦ rw other (p.0, insert-IsEntry k fs d h p.1)
  ]

  lookup-IsEntry :
      (k : Text) (fs : List Fact) (d : Dict Text (List Fact))
      → All IsEntry d
      → lookup k d ≡ some fs
      → length fs ≢ 0
  unfolding lookup
  lookup-IsEntry k fs [] p e = cc
  lookup-IsEntry k fs ((j, gs) ∷ d) p e = elim (Bool-cases (list_eq j k)) [
    | inl same ↦ ground arith
    | inr other ↦ lookup-IsEntry k fs d p.1 (ground arith)
  ]

  remove-IsEntry : (k : Text) (d : Dict Text (List Fact)) → All IsEntry d → All IsEntry (remove k d)
  unfolding remove
  remove-IsEntry k [] p = tt
  remove-IsEntry k ((j, gs) ∷ d) p = elim (Bool-cases (list_eq j k)) [
    | inl same ↦ rw same (remove-IsEntry k d p.1)
    | inr other ↦ rw other (p.0, remove-IsEntry k d p.1)
  ]

  kept-IsEntry :
      (gone : List Fact) (d : Dict Text (List Fact))
      → All IsEntry d
      → All IsEntry (kept_facts gone d)
  unfolding kept_facts
  kept-IsEntry gone [] p = tt
  kept-IsEntry gone ((j, gs) ∷ d) p = elim (Bool-cases (same uni gs gone)) [
    | inl gone_too ↦ rw gone_too (kept-IsEntry gone d p.1)
    | inr kept ↦ rw kept (p.0, kept-IsEntry gone d p.1)
  ]

  -- Every key stands once, no key is empty and no entry is without a fact.
  abbrev pub IsValid : KnowledgeStore → Type 0
  IsValid store = IsUnique store.facts × All IsEntry store.facts

  -- An insertion into a valid store, an alias and a removal keep every key standing once, no key
  -- empty and no entry without a fact.
  pub knowledge-IsValid :
      (store : KnowledgeStore) (a b c : Text)
      → IsValid store
      → IsValid (insert_fact uni store a b c)
        × IsValid (alias uni store a b).1
        × IsValid (remove_fact uni store a).1
  unfolding insert_fact alias
  knowledge-IsValid store a b c (once, entries) =
      let k = normalize uni a in
      let grown = facts_of uni store.facts k ++ record { text = b; source = c } ∷ [] in
      (
        elim (Bool-cases (length k == 0)) [
          | inl empty ↦ rw empty (once, entries)
          | inr full ↦ rw full (
            insert-IsUnique k grown store.facts once,
            insert-IsEntry k grown store.facts
                (
                  ground arith,
                  omega (
                    arith,
                    length-append (facts_of uni store.facts k)
                        (record { text = b; source = c } ∷ []),
                  ),
                )
                entries,
          )
        ],
        elim (Option-cases (lookup (normalize uni b) store.facts)) [
          | inl absent ↦ (ground arith, ground arith)
          | inr (f, found) ↦
              let facts = lookup-IsEntry (normalize uni b) f store.facts entries found in
              (
                ground (arith, insert-IsUnique k f store.facts once),
                ground (arith, insert-IsEntry k f store.facts),
              )
        ],
        elim (Option-cases (lookup k store.facts)) [
          | inl absent ↦ rw (remove_fact_absent store a absent) (once, entries)
          | inr (gone, found) ↦ rw (remove_fact_found store a gone found) (
            unfold kept_facts in
                keep-IsUnique (λ (fs : List Fact). not (same uni fs gone)) (remove k store.facts)
                  (remove-IsUnique k store.facts once),
            kept-IsEntry gone (remove k store.facts) (remove-IsEntry k store.facts entries),
          )
        ],
      )
