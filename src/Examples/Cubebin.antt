-- ===== src/Examples/Cubebin.antt =====
-- Runs of the format's theorems: a program with one `@internal`, `@once` function.
use cubelang.Base.{[], ◌∷◌, ◌≡◌, refl, true, false, length, All, arith}
use cubelang.Base.Text.{lit, well_formed_from}
use cubelang.Program.{CompiledFunction, CompiledProgram, internal, external}
use cubelang.Cubebin.Reader.{ok}
use cubelang.Cubebin.Format.{to_cubebin, from_cubebin}
use cubelang.Cubebin.RoundTrip.{Fits, strip, from_cubebin-to_cubebin}
use cubelang.Cubebin.Save.{
  save, written, save-from_cubebin, from_cubebin_access, SameCapabilities, AllPairs,
}

abbrev step : CompiledFunction
step = record {
  name = lit "step";
  params = lit "x" ∷ [];
  bytecode = 255 ∷ 57 ∷ 0 ∷ [];
  labels = [];
  debug_lines = [];
  is_override = false;
  access = internal;
  once = true;
}

abbrev counter : CompiledProgram
counter = record {
  name = lit "Counter";
  implements = lit "Agent" ∷ [];
  functions = step ∷ [];
  storage_fields = lit "total" ∷ [];
  symbol_names = lit "x" ∷ lit "total" ∷ [];
  used_modules = [];
}

counter-Fits : Fits counter
unfolding well_formed_from
counter-Fits = record {
  name = (omega arith, refl);
  implements = (omega arith, ((omega arith, refl), tt));
  storage_fields = (omega arith, ((omega arith, refl), tt));
  function_count = omega arith;
  functions = (((omega arith, refl), (omega arith, ((omega arith, refl), tt)), omega arith), tt);
  symbols = (omega arith, ((omega arith, refl), ((omega arith, refl), tt)));
}

counter-written : save counter ≡ written (to_cubebin counter)
unfolding save
counter-written = refl

from_cubebin-to_cubebin_example : from_cubebin (to_cubebin counter) ≡ ok (strip counter)
from_cubebin-to_cubebin_example = from_cubebin-to_cubebin counter counter-Fits

save-from_cubebin_example :
    (q : CompiledProgram) × (from_cubebin (to_cubebin counter) ≡ ok q)
    × (q.name ≡ counter.name)
    × (q.implements ≡ counter.implements)
    × (q.storage_fields ≡ counter.storage_fields)
    × (q.symbol_names ≡ counter.symbol_names)
    × (q.used_modules ≡ counter.used_modules)
    × AllPairs SameCapabilities counter.functions q.functions
save-from_cubebin_example =
    save-from_cubebin counter (to_cubebin counter) counter-Fits counter-written

from_cubebin_access_example :
    (length (strip counter).functions ≡ 1)
    × All
        (λ (f : CompiledFunction). (f.access ≡ external) × (f.once ≡ false))
        (strip counter).functions
from_cubebin_access_example =
    from_cubebin_access counter (strip counter) counter-Fits
      (from_cubebin-to_cubebin counter counter-Fits)
