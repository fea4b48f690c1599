-- ===== src/Cubebin/Save.antt =====
-- `save` and what a reloaded program keeps (src/compiler.rs: `save`, `capability_conflict`).
use cubelang.Base.{
  ℕ, List, [], ◌∷◌, Bool, true, false, ◌||◌, Option, none, some, any, All, map, ◌≡◌, refl, arith,
  if◌then◌else◌, length, ap, sym, ◌∙◌, subst, suc,
}
use cubelang.Base.Text.{Text}
use cubelang.Program.{CompiledFunction, CompiledProgram, external}
use cubelang.Cubebin.Reader.{Loaded, ok}
use cubelang.Cubebin.Format.{to_cubebin, from_cubebin}
use cubelang.Cubebin.RoundTrip.{Fits, strip, strip_function, from_cubebin-to_cubebin}

abbrev is_nil {ℓ} : {A : Type ℓ} → List A → Bool
is_nil [] = true
is_nil (_ ∷ _) = false

-- The reason that `save` gives: the program's name and its used modules.
unfoldable pub capability_conflict : CompiledProgram → Option (Text × List Text)
capability_conflict p =
    if is_nil p.used_modules
    then (if any (λ (f : CompiledFunction). f.is_override) p.functions
        then some (p.name, p.used_modules)
        else none)
    else some (p.name, p.used_modules)

-- The outcome of `save`, up to the file system: refused with the reason, or the bytes written.
pub data Saved : Type 0 where
  refused : Text × List Text → Saved
  written : List ℕ → Saved

unfoldable pub save : CompiledProgram → Saved
unfolding capability_conflict
save p = elim (capability_conflict p) [ none ↦ written (to_cubebin p) | some r ↦ refused r ]

-- A function as it was, but for what the format drops without a word.
abbrev pub SameCapabilities : CompiledFunction → CompiledFunction → Type 0
SameCapabilities f g =
    (g.name ≡ f.name)
    × (g.params ≡ f.params)
    × (g.bytecode ≡ f.bytecode)
    × (g.is_override ≡ f.is_override)

abbrev pub AllPairs :
    (CompiledFunction → CompiledFunction → Type 0)
    → List CompiledFunction
    → List CompiledFunction
    → Type 0
AllPairs R [] [] = Unit
AllPairs R (x ∷ xs) (y ∷ ys) = R x y × AllPairs R xs ys
AllPairs R _ _ = ⊥

or_false : (a b : Bool) → (a || b) ≡ false → (a ≡ false) × (b ≡ false)
or_false a b h = ground arith

strip-SameCapabilities :
    (fs : List CompiledFunction)
    → any (λ (f : CompiledFunction). f.is_override) fs ≡ false
    → AllPairs SameCapabilities fs (map strip_function fs)
unfolding strip_function
strip-SameCapabilities [] h = tt
strip-SameCapabilities (f ∷ fs) h =
    let (own, rest) = or_false f.is_override (any (λ (g : CompiledFunction). g.is_override) fs) h in
    ((refl, refl, refl, sym own), strip-SameCapabilities fs rest)

nil_of : {A : Type 0} (xs : List A) → is_nil xs ≡ true → xs ≡ []
nil_of [] h = refl
nil_of (x ∷ xs) h = cc

-- What `save` accepts uses no module and overrides nothing, and is written whole.
save-written :
    (p : CompiledProgram) (bs : List ℕ)
    → save p ≡ written bs
    → (bs ≡ to_cubebin p)
      × (is_nil p.used_modules ≡ true)
      × (any (λ (f : CompiledFunction). f.is_override) p.functions ≡ false)
unfolding save
save-written p bs h = ground arith

ok-injective : (p q : CompiledProgram) → Loaded.ok p ≡ ok q → p ≡ q
ok-injective p q h = cc

dropped :
    (fs : List CompiledFunction)
    → (length (map strip_function fs) ≡ length fs)
      × All
          (λ (f : CompiledFunction). (f.access ≡ external) × (f.once ≡ false))
          (map strip_function fs)
unfolding strip_function
dropped [] = (refl, tt)
dropped (f ∷ fs) = let (n, rest) = dropped fs in (ap suc n, ((refl, refl), rest))

-- A program whose lengths fit the format and that `save` accepts loads with its name, interfaces, storage fields, symbols, used
-- modules, and each function's name, parameters, code and override mark unchanged.
pub save-from_cubebin :
    (p : CompiledProgram) (bs : List ℕ)
    → Fits p
    → save p ≡ written bs
    → (q : CompiledProgram) × (from_cubebin bs ≡ ok q)
      × (q.name ≡ p.name)
      × (q.implements ≡ p.implements)
      × (q.storage_fields ≡ p.storage_fields)
      × (q.symbol_names ≡ p.symbol_names)
      × (q.used_modules ≡ p.used_modules)
      × AllPairs SameCapabilities p.functions q.functions
unfolding save strip
save-from_cubebin p bs fits h =
    let (whole, unused, plain) = save-written p bs h in
    (
      strip p,
      rw whole (from_cubebin-to_cubebin p fits),
      refl,
      refl,
      refl,
      refl,
      sym (nil_of p.used_modules unused),
      strip-SameCapabilities p.functions plain,
    )

-- The access attribute and the `@once` mark of every function of a program whose lengths fit the
-- format are lost: each function loads as `external` and not `once`, also where `save` accepted the
-- program.
pub from_cubebin_access :
    (p : CompiledProgram) (q : CompiledProgram)
    → Fits p
    → from_cubebin (to_cubebin p) ≡ ok q
    → (length q.functions ≡ length p.functions)
      × All (λ (f : CompiledFunction). (f.access ≡ external) × (f.once ≡ false)) q.functions
unfolding strip
from_cubebin_access p q fits h =
    subst
      (λ (r : CompiledProgram).
        (length r.functions ≡ length p.functions)
        × All (λ (f : CompiledFunction). (f.access ≡ external) × (f.once ≡ false)) r.functions)
      (ok-injective (strip p) q (sym (from_cubebin-to_cubebin p fits) ∙ h)) (dropped p.functions)
