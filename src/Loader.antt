-- ===== src/Loader.antt =====
-- The `import` loader (src/loader.rs). The file system and the parser are parameters; the fuel is
-- the depth of nested imports.
pub mod Names
pub mod Depth
use cubelang.Base.{
  ℕ, zero, suc, List, [], ◌∷◌, ◌++◌, Bool, true, false, Option, none, some, any, ◌⊎◌, inl, inr,
}
use cubelang.Base.Text.{Text}
use cubelang.Base.Dict.{Dict, lookup, insert}
use cubelang.Base.Equal.{list_eq, list_equal}
use cubelang.Syntax.Decl.{TopLevel, SourceFile}

-- The files as they are during a load, with `canonicalize`, `read_to_string`, `join` and `parent`,
-- and the parser.
pub record Files (F : Type 0) : Type 1 where
  pub IoError : Type 0
  pub SyntaxError : Type 0
  pub canonicalize : Text → IoError ⊎ Text
  pub read : Text → IoError ⊎ Text
  pub parse : Text → SyntaxError ⊎ SourceFile F
  pub join : Text → Text → Text
  pub parent : Text → Text

module _ {F : Type 0} where
  -- The name that an item declares.
  unfoldable pub declared_name : TopLevel F → Option Text
  declared_name (TopLevel.interface d) = some d.name
  declared_name (TopLevel.program d) = some d.name
  declared_name (TopLevel.container d) = some d.name
  declared_name (TopLevel.struct d) = some d.name
  declared_name (TopLevel.enum d) = some d.name
  declared_name (TopLevel.type_alias d) = some d.name
  declared_name (TopLevel.event_decl d) = some d.name
  declared_name _ = none

  unfoldable pub own_items : List (TopLevel F) → List (TopLevel F)
  own_items [] = []
  own_items (TopLevel.import path ∷ items) = own_items items
  own_items (item ∷ items) = item ∷ own_items items

  unfoldable pub import_paths : List (TopLevel F) → List Text
  import_paths [] = []
  import_paths (TopLevel.import path ∷ items) = path ∷ import_paths items
  import_paths (item ∷ items) = import_paths items

module _ {F : Type 0} (files : Files F) where
  open files use {IoError, SyntaxError, canonicalize, read, parse, join, parent}

  pub data LoadError : Type 0 where
    io : Text → IoError → LoadError
    syntax : Text → SyntaxError → LoadError
    duplicate_name : Text → Text → Text → LoadError

  -- The files seen, the declared names with their files, and the items so far.
  pub record Merge : Type 0 where
    pub visited : List Text
    pub names : Dict Text Text
    pub merged : List (TopLevel F)

  pub data Loading : Type 0 where
    done : Merge → Loading
    failed : LoadError → Loading
    exhausted : Loading

  unfoldable pub and_then : Loading → (Merge → Loading) → Loading
  and_then (done m) next = next m
  and_then (failed e) next = failed e
  and_then exhausted next = exhausted

  unfoldable pub push : TopLevel F → Merge → Merge
  push item m = record m { merged = m.merged ++ item ∷ [] }

  -- A name that is there already is an error; a new one is entered.
  unfoldable pub merge_new : Option Text → Text → Text → TopLevel F → Merge → Loading
  merge_new (some first) canonical name item m = failed (duplicate_name name first canonical)
  merge_new none canonical name item m =
      done (push item (record m { names = insert name canonical m.names }))

  unfoldable pub merge_named : Option Text → Text → TopLevel F → Merge → Loading
  merge_named none canonical item m = done (push item m)
  merge_named (some name) canonical item m = merge_new (lookup name m.names) canonical name item m

  unfoldable pub merge_items : Text → List (TopLevel F) → Merge → Loading
  merge_items canonical [] m = done m
  merge_items canonical (item ∷ items) m =
      and_then (merge_named (declared_name item) canonical item m) (merge_items canonical items)

  -- Each import in its order, relative to the importing file.
  unfoldable pub load_imports : (Text → Merge → Loading) → Text → List Text → Merge → Loading
  load_imports load_path base [] m = done m
  load_imports load_path base (path ∷ paths) m =
      and_then (load_path (join base path) m) (load_imports load_path base paths)

  unfoldable pub load_parsed :
      (Text → Merge → Loading) → Text → SyntaxError ⊎ SourceFile F → Merge → Loading
  load_parsed load_path canonical (inl e) m = failed (syntax canonical e)
  load_parsed load_path canonical (inr ast) m =
      and_then (merge_items canonical (own_items ast.items) m)
        (load_imports load_path (parent canonical) (import_paths ast.items))

  unfoldable pub load_source : (Text → Merge → Loading) → Text → IoError ⊎ Text → Merge → Loading
  load_source load_path canonical (inl e) m = failed (io canonical e)
  load_source load_path canonical (inr source) m = load_parsed load_path canonical (parse source) m

  abbrev pub has : List Text → Text → Bool
  has paths path = any (λ p. list_eq p path) paths

  -- A file that was seen is left out, in a cycle or not.
  unfoldable pub load_file : (Text → Merge → Loading) → Bool → Text → Merge → Loading
  load_file load_path true canonical m = done m
  load_file load_path false canonical m =
      load_source load_path canonical (read canonical)
        (record m { visited = canonical ∷ m.visited })

  unfoldable pub load_found : (Text → Merge → Loading) → Text → IoError ⊎ Text → Merge → Loading
  load_found load_path path (inl e) m = failed (io path e)
  load_found load_path path (inr canonical) m =
      load_file load_path (has m.visited canonical) canonical m

  unfoldable pub load_into : ℕ → Text → Merge → Loading
  load_into zero path m = exhausted
  load_into (suc fuel) path m = load_found (load_into fuel) path (canonicalize path) m

  unfoldable pub load : ℕ → Text → Loading
  load fuel entry = load_into fuel entry (record { visited = []; names = []; merged = [] })
