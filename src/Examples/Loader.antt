-- ===== src/Examples/Loader.antt =====
-- A run of the loader's theorems: two files that import each other.
use cubelang.Base.{[], ◌∷◌, Bool, if◌then◌else◌, ◌≡◌, ◌≢◌, refl, ◌⊎◌, inl, inr, All, arith}
use cubelang.Base.Text.{Text, lit}
use cubelang.Base.Dict.{lookup, insert}
use cubelang.Base.Equal.{list_eq}
use cubelang.Syntax.Decl.{TopLevel, SourceFile}
use cubelang.Loader.{
  Files, Merge, done, exhausted, load, load_into, load_found, load_file, load_source, load_parsed,
  load_imports, merge_items, merge_named, merge_new, push, and_then, own_items, import_paths,
  declared_name,
}
use cubelang.Loader.Names.{AreDistinct, NoImport, load-AreDistinct}
use cubelang.Loader.Depth.{Listed, load_ends}

abbrev named : Text → TopLevel Bool
named name = TopLevel.program (record {
  name = name;
  implements = [];
  body = [];
  span = record { line = 1; col = 1; offset = 0 };
})

abbrev contents : Text → SourceFile Bool
contents path =
    if list_eq path (lit "a")
    then record { items = TopLevel.import (lit "b") ∷ named (lit "P") ∷ [] }
    else record { items = named (lit "Q") ∷ TopLevel.import (lit "a") ∷ [] }

abbrev known : Text → Bool ⊎ Text
known path =
    if list_eq path (lit "a")
    then inr (lit "a")
    else if list_eq path (lit "b")
    then inr (lit "b")
    else inl Bool.false

-- The files `a` and `b`; the first imports the second, and the second the first.
abbrev cycle : Files Bool
cycle = record {
  IoError = Bool;
  SyntaxError = Bool;
  canonicalize = known;
  read = λ path. inr path;
  parse = λ source. inr (contents source);
  join = λ base path. path;
  parent = λ path. path;
}

abbrev both : Merge cycle
both = record {
  visited = lit "b" ∷ lit "a" ∷ [];
  names = (lit "P", lit "a") ∷ (lit "Q", lit "b") ∷ [];
  merged = named (lit "P") ∷ named (lit "Q") ∷ [];
}

cycle_loaded : load cycle 3 (lit "a") ≡ done both
unfolding load load_into load_found load_file load_source load_parsed load_imports merge_items
    merge_named merge_new push and_then own_items import_paths declared_name lookup insert
cycle_loaded = refl

load-AreDistinct_example : AreDistinct both.merged × All NoImport both.merged
load-AreDistinct_example = load-AreDistinct cycle 3 (lit "a") both cycle_loaded

known-Listed :
    (path canonical : Text) → known path ≡ inr canonical → Listed (lit "a" ∷ lit "b" ∷ []) canonical
known-Listed path canonical e = ground arith

load_ends_example : load cycle 3 (lit "a") ≢ exhausted
load_ends_example = load_ends cycle (lit "a" ∷ lit "b" ∷ []) 3 (lit "a") known-Listed (omega arith)
