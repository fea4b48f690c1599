-- ===== src/Loader/Names.antt =====
-- What a successful load gives (src/loader.rs: `load_into`).
use cubelang.Base.{
  ℕ, zero, suc, List, [], ◌∷◌, ◌++◌, Option, none, some, ◌≡◌, ◌≢◌, refl, sym, ◌⊎◌, inl, inr, All,
  All-append, All-weaken, subst, Bool-cases, Bool, true, false, ◌∙◌,
}
use cubelang.Base.Text.{Text}
use cubelang.Base.Dict.{Dict, lookup, insert, lookup-insert, lookup-insert_self}
use cubelang.Base.Equal.{list_eq, list_equal}
use cubelang.Syntax.Decl.{TopLevel, SourceFile}
use cubelang.Loader.{
  Files, declared_name, own_items, import_paths, Merge, Loading, done, failed, exhausted, and_then,
  push, merge_new, merge_named, merge_items, load_imports, load_parsed, load_source, has, load_file,
  load_found, load_into, load,
}

-- Two declarations with names have two names.
abbrev Differs : Option Text → Option Text → Type 0
Differs (some a) (some b) = a ≢ b
Differs _ _ = Unit

abbrev IsNamed : Dict Text Text → Option Text → Type 0
IsNamed names none = Unit
IsNamed names (some n) = lookup n names ≢ none

Differs-none : (o : Option Text) → Differs o none
Differs-none none = tt
Differs-none (some n) = tt

-- A name that is not entered yet is none of the entered ones.
Differs-IsNamed :
    (names : Dict Text Text) (name : Text) (o : Option Text)
    → lookup name names ≡ none
    → IsNamed names o
    → Differs o (some name)
Differs-IsNamed names name none e h = tt
Differs-IsNamed names name (some n) e h = λ q. h (rw q e)

IsNamed-insert :
    (names : Dict Text Text) (name canonical : Text) (o : Option Text)
    → IsNamed names o
    → IsNamed (insert name canonical names) o
IsNamed-insert names name canonical none h = tt
IsNamed-insert names name canonical (some n) h = λ e. elim (Bool-cases (list_eq name n)) [
  | inl q ↦
      let now : lookup n (insert name canonical names) ≡ some canonical =
        rw (lookup-insert, q) refl in
      cc
  | inr q ↦
      let kept : lookup n (insert name canonical names) ≡ lookup n names =
        rw (lookup-insert, q) refl in
      h (sym kept ∙ e)
]

IsNamed-inserted :
    (names : Dict Text Text) (name canonical : Text)
    → IsNamed (insert name canonical names) (some name)
IsNamed-inserted names name canonical = λ e.
    let now : lookup name (insert name canonical names) ≡ some canonical =
      rw lookup-insert_self refl in
    cc

module _ {F : Type 0} where
  abbrev pub AreDistinct : List (TopLevel F) → Type 0
  AreDistinct [] = Unit
  AreDistinct (i ∷ is) = All (λ j. Differs (declared_name i) (declared_name j)) is × AreDistinct is

  abbrev pub NoImport : TopLevel F → Type 0
  NoImport (TopLevel.import p) = ⊥
  NoImport _ = Unit

  AreDistinct-push :
      (is : List (TopLevel F)) (i : TopLevel F)
      → AreDistinct is
      → All (λ j. Differs (declared_name j) (declared_name i)) is
      → AreDistinct (is ++ i ∷ [])
  AreDistinct-push [] i d h = (tt, tt)
  AreDistinct-push (j ∷ is) i d h =
      (All-append _ is (i ∷ []) d.0 (h.0, tt), AreDistinct-push is i d.1 h.1)

  own_items-NoImport : (is : List (TopLevel F)) → All NoImport (own_items is)
  unfolding own_items
  own_items-NoImport [] = tt
  own_items-NoImport (TopLevel.import p ∷ is) = own_items-NoImport is
  own_items-NoImport (TopLevel.interface d ∷ is) = (tt, own_items-NoImport is)
  own_items-NoImport (item ∷ is) = (tt, own_items-NoImport is)

module _ {F : Type 0} (files : Files F) where
  -- The items so far have names of their own, all of them entered, and none is an import.
  abbrev IsMerged : Merge files → Type 0
  IsMerged m =
      AreDistinct m.merged
      × All (λ i. IsNamed m.names (declared_name i)) m.merged
      × All NoImport m.merged

  -- A load that succeeds gives such items.
  abbrev Merges : Loading files → Type 0
  Merges (done m) = IsMerged m
  Merges _ = Unit

  Merges-and_then :
      (r : Loading files) (next : Merge files → Loading files)
      → Merges r
      → ((m : Merge files) → IsMerged m → Merges (next m))
      → Merges (and_then files r next)
  unfolding and_then
  Merges-and_then (done m) next h k = k m h
  Merges-and_then (failed e) next h k = tt
  Merges-and_then exhausted next h k = tt

  Merges-merge_new :
      (found : Option Text) (canonical name : Text) (item : TopLevel F) (m : Merge files)
      → declared_name item ≡ some name
      → lookup name m.names ≡ found
      → NoImport item
      → IsMerged m
      → Merges (merge_new files found canonical name item m)
  unfolding merge_new push
  Merges-merge_new (some first) canonical name item m e q n h = tt
  Merges-merge_new none canonical name item m e q n (d, named, imports) = (
    AreDistinct-push m.merged item d (
        All-weaken _ _ m.merged
          (λ i h. subst (Differs (declared_name i)) (sym e) (Differs-IsNamed m.names name _ q h))
          named),
    All-append _ m.merged (item ∷ [])
        (All-weaken _ _ m.merged (λ i h. IsNamed-insert m.names name canonical _ h) named)
        (
          subst (IsNamed (insert name canonical m.names)) (sym e)
              (IsNamed-inserted m.names name canonical),
          tt,
        ),
    All-append _ m.merged (item ∷ []) imports (n, tt),
  )

  Merges-merge_named :
      (o : Option Text) (canonical : Text) (item : TopLevel F) (m : Merge files)
      → declared_name item ≡ o
      → NoImport item
      → IsMerged m
      → Merges (merge_named files o canonical item m)
  unfolding merge_named push
  Merges-merge_named (some name) canonical item m e n h =
      Merges-merge_new (lookup name m.names) canonical name item m e refl n h
  Merges-merge_named none canonical item m e n (d, named, imports) = (
    AreDistinct-push m.merged item d (
        All-weaken _ _ m.merged
          (λ i h. subst (Differs (declared_name i)) (sym e) (Differs-none (declared_name i)))
          named),
    All-append _ m.merged (item ∷ []) named (subst (IsNamed m.names) (sym e) tt, tt),
    All-append _ m.merged (item ∷ []) imports (n, tt),
  )

  Merges-merge_items :
      (canonical : Text) (items : List (TopLevel F)) (m : Merge files)
      → All NoImport items
      → IsMerged m
      → Merges (merge_items files canonical items m)
  unfolding merge_items
  Merges-merge_items canonical [] m n h = h
  Merges-merge_items canonical (item ∷ items) m n h =
      Merges-and_then (merge_named files (declared_name item) canonical item m)
        (merge_items files canonical items)
        (Merges-merge_named (declared_name item) canonical item m refl n.0 h)
        (λ k hk. Merges-merge_items canonical items k n.1 hk)

  abbrev MergesPath : (Text → Merge files → Loading files) → Type 0
  MergesPath load_path = (path : Text) (m : Merge files) → IsMerged m → Merges (load_path path m)

  Merges-load_imports :
      (load_path : Text → Merge files → Loading files) (base : Text) (paths : List Text)
      (m : Merge files)
      → MergesPath load_path
      → IsMerged m
      → Merges (load_imports files load_path base paths m)
  unfolding load_imports
  Merges-load_imports load_path base [] m w h = h
  Merges-load_imports load_path base (p ∷ ps) m w h =
      Merges-and_then (load_path (files.join base p) m) (load_imports files load_path base ps)
        (w (files.join base p) m h) (λ k hk. Merges-load_imports load_path base ps k w hk)

  Merges-load_parsed :
      (load_path : Text → Merge files → Loading files) (canonical : Text)
      (parsed : files.SyntaxError ⊎ SourceFile F) (m : Merge files)
      → MergesPath load_path
      → IsMerged m
      → Merges (load_parsed files load_path canonical parsed m)
  unfolding load_parsed
  Merges-load_parsed load_path canonical (inl e) m w h = tt
  Merges-load_parsed load_path canonical (inr ast) m w h =
      Merges-and_then (merge_items files canonical (own_items ast.items) m)
        (load_imports files load_path (files.parent canonical) (import_paths ast.items))
        (Merges-merge_items canonical (own_items ast.items) m (own_items-NoImport ast.items) h)
        (λ k hk. Merges-load_imports load_path _ _ k w hk)

  Merges-load_source :
      (load_path : Text → Merge files → Loading files) (canonical : Text)
      (source : files.IoError ⊎ Text) (m : Merge files)
      → MergesPath load_path
      → IsMerged m
      → Merges (load_source files load_path canonical source m)
  unfolding load_source
  Merges-load_source load_path canonical (inl e) m w h = tt
  Merges-load_source load_path canonical (inr source) m w h =
      Merges-load_parsed load_path canonical (files.parse source) m w h

  Merges-load_file :
      (load_path : Text → Merge files → Loading files) (seen : Bool) (canonical : Text)
      (m : Merge files)
      → MergesPath load_path
      → IsMerged m
      → Merges (load_file files load_path seen canonical m)
  unfolding load_file
  Merges-load_file load_path true canonical m w h = h
  Merges-load_file load_path false canonical m w h =
      Merges-load_source load_path canonical (files.read canonical)
        (record m { visited = canonical ∷ m.visited }) w h

  Merges-load_found :
      (load_path : Text → Merge files → Loading files) (path : Text) (found : files.IoError ⊎ Text)
      (m : Merge files)
      → MergesPath load_path
      → IsMerged m
      → Merges (load_found files load_path path found m)
  unfolding load_found
  Merges-load_found load_path path (inl e) m w h = tt
  Merges-load_found load_path path (inr canonical) m w h =
      Merges-load_file load_path (has files m.visited canonical) canonical m w h

  Merges-load_into : (fuel : ℕ) → MergesPath (load_into files fuel)
  unfolding load_into
  Merges-load_into zero path m h = tt
  Merges-load_into (suc fuel) path m h =
      Merges-load_found (load_into files fuel) path (files.canonicalize path) m
        (Merges-load_into fuel) h

  -- A load that succeeds gives items of which no two declare one name and none is an import.
  pub load-AreDistinct :
      (fuel : ℕ) (entry : Text) (m : Merge files)
      → load files fuel entry ≡ done m
      → AreDistinct m.merged × All NoImport m.merged
  unfolding load
  load-AreDistinct fuel entry m e =
      let start : Merge files = record { visited = []; names = []; merged = [] } in
      let h = subst Merges e (Merges-load_into fuel entry start (tt, tt, tt)) in (h.0, h.2)
