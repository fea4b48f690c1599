-- ===== src/Loader/Depth.antt =====
-- The depth of nested imports (src/loader.rs: `load_into`).
use cubelang.Base.{
  ℕ, zero, suc, ◌-◌, ◌<◌, ◌≤◌, List, [], ◌∷◌, Bool, true, false, Option, none, some, length,
  if◌then◌else◌, ◌≡◌, ◌≢◌, refl, sym, subst, ◌⊎◌, inl, inr, arith,
}
use cubelang.Base.Text.{Text}
use cubelang.Base.Dict.{lookup}
use cubelang.Base.Equal.{list_eq, list_eq_iff, list_equal}
use cubelang.Syntax.Decl.{TopLevel, SourceFile}
use cubelang.Loader.{
  Files, declared_name, own_items, import_paths, Merge, Loading, done, failed, exhausted, and_then,
  push, merge_new, merge_named, merge_items, load_imports, load_parsed, load_source, has, load_file,
  load_found, load_into, load,
}

abbrev pub Listed : List Text → Text → Type 0
Listed [] x = ⊥
Listed (y ∷ ys) x = (y ≡ x) ⊎ Listed ys x

module _ {F : Type 0} (files : Files F) where
  -- How many of the files have not been seen.
  abbrev unseen : List Text → List Text → ℕ
  unseen [] seen = 0
  unseen (x ∷ xs) seen = if has files seen x then unseen xs seen else suc (unseen xs seen)

  unseen-see-le : (all seen : List Text) (c : Text) → unseen all (c ∷ seen) ≤ unseen all seen
  unseen-see-le [] seen c = omega arith
  unseen-see-le (x ∷ xs) seen c = ground (arith, unseen-see-le xs seen c)

  -- A new file that is one of them makes the number smaller.
  unseen-see-lt :
      (all seen : List Text) (c : Text)
      → Listed all c
      → has files seen c ≡ false
      → unseen all (c ∷ seen) < unseen all seen
  unseen-see-lt [] seen c l e = absurd l
  unseen-see-lt (x ∷ xs) seen c (inl q) e =
      let e1 : has files seen x ≡ false = subst (λ y. has files seen y ≡ false) (sym q) e in
      let e2 : list_eq c x ≡ true = (list_eq_iff c x).1 (sym q) in
      ground (arith, unseen-see-le xs seen c)
  unseen-see-lt (x ∷ xs) seen c (inr l) e = ground (arith, unseen-see-lt xs seen c l e)

  unseen-length : (all : List Text) → unseen all [] ≤ length all
  unseen-length [] = omega arith
  unseen-length (x ∷ xs) = omega (arith, unseen-length xs)

  -- A load ends, and has seen no fewer files than to leave this many.
  abbrev Ends : List Text → ℕ → Loading files → Type 0
  Ends all b (done m) = unseen all m.visited ≤ b
  Ends all b (failed e) = Unit
  Ends all b exhausted = ⊥

  Ends-weaken :
      (all : List Text) (a b : ℕ) (r : Loading files) → a ≤ b → Ends all a r → Ends all b r
  Ends-weaken all a b (done m) le h = omega arith
  Ends-weaken all a b (failed e) le h = tt
  Ends-weaken all a b exhausted le h = h

  module _ (all : List Text) where
    Ends-and_then :
        (b : ℕ) (r : Loading files) (next : Merge files → Loading files)
        → Ends all b r
        → ((m : Merge files) → unseen all m.visited ≤ b → Ends all b (next m))
        → Ends all b (and_then files r next)
    unfolding and_then
    Ends-and_then b (done m) next h k = k m h
    Ends-and_then b (failed e) next h k = tt
    Ends-and_then b exhausted next h k = absurd h

    Ends-merge_new :
        (b : ℕ) (found : Option Text) (canonical name : Text) (item : TopLevel F) (m : Merge files)
        → unseen all m.visited ≤ b
        → Ends all b (merge_new files found canonical name item m)
    unfolding merge_new push
    Ends-merge_new b (some first) canonical name item m h = tt
    Ends-merge_new b none canonical name item m h = h

    Ends-merge_named :
        (b : ℕ) (o : Option Text) (canonical : Text) (item : TopLevel F) (m : Merge files)
        → unseen all m.visited ≤ b
        → Ends all b (merge_named files o canonical item m)
    unfolding merge_named push
    Ends-merge_named b none canonical item m h = h
    Ends-merge_named b (some name) canonical item m h =
        Ends-merge_new b (lookup name m.names) canonical name item m h

    Ends-merge_items :
        (b : ℕ) (canonical : Text) (items : List (TopLevel F)) (m : Merge files)
        → unseen all m.visited ≤ b
        → Ends all b (merge_items files canonical items m)
    unfolding merge_items
    Ends-merge_items b canonical [] m h = h
    Ends-merge_items b canonical (item ∷ items) m h =
        Ends-and_then b (merge_named files (declared_name item) canonical item m)
          (merge_items files canonical items)
          (Ends-merge_named b (declared_name item) canonical item m h)
          (λ k hk. Ends-merge_items b canonical items k hk)

    -- A path is loaded within the bound.
    abbrev EndsPath : ℕ → (Text → Merge files → Loading files) → Type 0
    EndsPath b load_path =
        (path : Text) (m : Merge files) → unseen all m.visited ≤ b → Ends all b (load_path path m)

    Ends-load_imports :
        (b : ℕ) (load_path : Text → Merge files → Loading files) (base : Text) (paths : List Text)
        (m : Merge files)
        → EndsPath b load_path
        → unseen all m.visited ≤ b
        → Ends all b (load_imports files load_path base paths m)
    unfolding load_imports
    Ends-load_imports b load_path base [] m w h = h
    Ends-load_imports b load_path base (p ∷ ps) m w h =
        Ends-and_then b (load_path (files.join base p) m) (load_imports files load_path base ps)
          (w (files.join base p) m h) (λ k hk. Ends-load_imports b load_path base ps k w hk)

    Ends-load_parsed :
        (b : ℕ) (load_path : Text → Merge files → Loading files) (canonical : Text)
        (parsed : files.SyntaxError ⊎ SourceFile F) (m : Merge files)
        → EndsPath b load_path
        → unseen all m.visited ≤ b
        → Ends all b (load_parsed files load_path canonical parsed m)
    unfolding load_parsed
    Ends-load_parsed b load_path canonical (inl e) m w h = tt
    Ends-load_parsed b load_path canonical (inr ast) m w h =
        Ends-and_then b (merge_items files canonical (own_items ast.items) m)
          (load_imports files load_path (files.parent canonical) (import_paths ast.items))
          (Ends-merge_items b canonical (own_items ast.items) m h)
          (λ k hk. Ends-load_imports b load_path _ _ k w hk)

    Ends-load_source :
        (b : ℕ) (load_path : Text → Merge files → Loading files) (canonical : Text)
        (source : files.IoError ⊎ Text) (m : Merge files)
        → EndsPath b load_path
        → unseen all m.visited ≤ b
        → Ends all b (load_source files load_path canonical source m)
    unfolding load_source
    Ends-load_source b load_path canonical (inl e) m w h = tt
    Ends-load_source b load_path canonical (inr source) m w h =
        Ends-load_parsed b load_path canonical (files.parse source) m w h

    -- A file that has not been seen leaves one fewer for its imports.
    Ends-load_file :
        (b : ℕ) (load_path : Text → Merge files → Loading files) (seen : Bool) (canonical : Text)
        (m : Merge files)
        → Listed all canonical
        → has files m.visited canonical ≡ seen
        → (0 < b → EndsPath (b - 1) load_path)
        → unseen all m.visited ≤ b
        → Ends all b (load_file files load_path seen canonical m)
    unfolding load_file
    Ends-load_file b load_path true canonical m l e w h = h
    Ends-load_file b load_path false canonical m l e w h =
        let lt = unseen-see-lt all m.visited canonical l e in
        let m1 : Merge files = record m { visited = canonical ∷ m.visited } in
        Ends-weaken all (b - 1) b (load_source files load_path canonical (files.read canonical) m1)
          (omega arith)
          (Ends-load_source (b - 1) load_path canonical (files.read canonical) m1 (w (omega arith))
            (omega arith))

    abbrev pub Covers : Type 0
    Covers =
        (path canonical : Text) → files.canonicalize path ≡ inr canonical → Listed all canonical

    Ends-load_found :
        (b : ℕ) (load_path : Text → Merge files → Loading files) (path : Text)
        (found : files.IoError ⊎ Text) (m : Merge files)
        → Covers
        → files.canonicalize path ≡ found
        → (0 < b → EndsPath (b - 1) load_path)
        → unseen all m.visited ≤ b
        → Ends all b (load_found files load_path path found m)
    unfolding load_found
    Ends-load_found b load_path path (inl e) m covers q w h = tt
    Ends-load_found b load_path path (inr canonical) m covers q w h =
        Ends-load_file b load_path (has files m.visited canonical) canonical m
          (covers path canonical q) refl w h

    Ends-load_into : (fuel b : ℕ) → Covers → b < fuel → EndsPath b (load_into files fuel)
    unfolding load_into
    Ends-load_into zero b covers lt path m h = absurd (omega arith)
    Ends-load_into (suc fuel) b covers lt path m h =
        Ends-load_found b (load_into files fuel) path (files.canonicalize path) m covers refl
          (λ pos. Ends-load_into fuel (b - 1) covers (omega arith)) h

  -- Where the paths of the file system stand for no more than the listed files, a load with a fuel
  -- above their number does not run out of it: cycles of imports end too.
  pub load_ends :
      (all : List Text) (fuel : ℕ) (entry : Text)
      → Covers all
      → length all < fuel
      → load files fuel entry ≢ exhausted
  unfolding load
  load_ends all fuel entry covers lt e =
      let start : Merge files = record { visited = []; names = []; merged = [] } in
      let le = unseen-length all in
      subst (Ends all (length all)) e
        (Ends-load_into all fuel (length all) covers lt entry start le)
