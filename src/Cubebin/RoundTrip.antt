-- ===== src/Cubebin/RoundTrip.antt =====
-- What `to_cubebin` writes, `from_cubebin` reads back, up to the fields that the format drops.
use native.Mathlib.Nat.{mod-eq_of_lt}
use cubelang.Base.{
  false, ℕ, ◌<◌, ◌%◌, ◌^◌, List, [], ◌∷◌, ◌++◌, map, ◌≡◌, refl, ap, ◌∙◌, append_assoc, arith,
  length, All, take-append, drop-append, le→ltb_false, le→leb, length-append,
}
use cubelang.Base.Text.{Text, lit, IsUtf8, from_utf8_lossy_lem}
use cubelang.Base.Int.{le_bytes, from_le-le_bytes}
use cubelang.Program.{CompiledFunction, CompiledProgram, external}
use cubelang.Cubebin.Reader.{
  Reader, Loaded, ok, err, panicked, byte, slice, text, texts, repeat, slice-append,
}
use cubelang.Cubebin.Format.{
  put_text, put_all, put_texts, put_function, put_symbols, to_cubebin, read_params, read_code,
  read_function, loaded_function, read_symbols, read_symbols_from, read_program, from_cubebin,
}

abbrev pub IsShort : Text → Type 0
IsShort s = (length s < 256) × IsUtf8 s

text-put_text : (s : Text) (rest : List ℕ) → IsShort s → text (put_text s ++ rest) ≡ ok (s, rest)
unfolding text put_text byte
text-put_text s rest (short, utf8) =
    rw (mod-eq_of_lt short, slice-append s rest, from_utf8_lossy_lem s utf8)

module _ {A B : Type 0} (r : Reader B) (put : A → List ℕ) (P : A → Type 0) (out : A → B)
    (reads : (a : A) (rest : List ℕ) → P a → r (put a ++ rest) ≡ ok (out a, rest)) where
  repeat-put_all :
      (xs : List A) (rest : List ℕ)
      → All P xs
      → repeat r (length xs) (put_all put xs ++ rest) ≡ ok (map out xs, rest)
  unfolding repeat put_all
  repeat-put_all [] rest h = refl
  repeat-put_all (x ∷ xs) rest h = rw (
    append_assoc (put x) (put_all put xs) rest,
    reads x (put_all put xs ++ rest) h.0,
    repeat-put_all xs rest h.1,
  )

map_id : (xs : List Text) → map (λ (s : Text). s) xs ≡ xs
map_id [] = refl
map_id (x ∷ xs) = ap (λ (l : List Text). x ∷ l) (map_id xs)

abbrev pub AreShort : List Text → Type 0
AreShort ss = (length ss < 256) × All IsShort ss

texts-put_texts :
    (ss : List Text) (rest : List ℕ) → AreShort ss → texts (put_texts ss ++ rest) ≡ ok (ss, rest)
unfolding texts put_texts byte
texts-put_texts ss rest (few, short) = rw (
  mod-eq_of_lt few,
  repeat-put_all text put_text IsShort (λ s. s) text-put_text ss rest short,
  map_id ss,
)

abbrev pub FitsFunction : CompiledFunction → Type 0
FitsFunction f = IsShort f.name × AreShort f.params × (length f.bytecode < 2 ^ 32)

-- What is left of a function: its name, its parameters and its code; all else is as in a function
-- that declares nothing.
unfoldable pub strip_function : CompiledFunction → CompiledFunction
strip_function f = record {
  name = f.name;
  params = f.params;
  bytecode = f.bytecode;
  labels = [];
  is_override = false;
  debug_lines = [];
  access = external;
  once = false;
}

slice-le_bytes4 : (n : ℕ) (rest : List ℕ) → slice 4 (le_bytes 4 n ++ rest) ≡ ok (le_bytes 4 n, rest)
unfolding le_bytes
slice-le_bytes4 n rest = slice-append (le_bytes 4 n) rest

read_code-put :
    (bc rest : List ℕ)
    → length bc < 2 ^ 32
    → read_code (le_bytes 4 (length bc % 2 ^ 32) ++ (bc ++ rest)) ≡ ok (bc, rest)
unfolding read_code
read_code-put bc rest h = rw (
  mod-eq_of_lt h,
  slice-le_bytes4 (length bc) (bc ++ rest),
  from_le-le_bytes 4 (length bc) h,
  slice-append bc rest,
)

read_function-put_function :
    (f : CompiledFunction) (rest : List ℕ)
    → FitsFunction f
    → read_function 3 (put_function f ++ rest) ≡ ok (strip_function f, rest)
unfolding read_function put_function strip_function read_params loaded_function
read_function-put_function f rest (name, params, few) = simp (
  append_assoc,
  text-put_text f.name _ name,
  texts-put_texts f.params _ params,
  read_code-put f.bytecode rest few,
)

read_symbols_from-put :
    (ss : List Text) → All IsShort ss → read_symbols_from (length ss) (put_all put_text ss) ≡ ss
unfolding read_symbols_from put_all put_text
read_symbols_from-put [] h = refl
read_symbols_from-put (s ∷ ss) ((short, utf8), h) = rw (
  mod-eq_of_lt short,
  le→ltb_false (length (s ++ put_all put_text ss)) (length s)
      (omega (arith, length-append s (put_all put_text ss))),
  take-append s (put_all put_text ss),
  drop-append s (put_all put_text ss),
  from_utf8_lossy_lem s utf8,
  read_symbols_from-put ss h,
)

abbrev pub FitsSymbols : List Text → Type 0
FitsSymbols ss = (length ss < 2 ^ 16) × All IsShort ss

read_symbols-put_symbols : (ss : List Text) → FitsSymbols ss → read_symbols 3 (put_symbols ss) ≡ ss
unfolding read_symbols put_symbols le_bytes
read_symbols-put_symbols ss (few, short) =
    rw
      (
        le→leb 2 (length (put_symbols ss)) (omega arith),
        mod-eq_of_lt few,
        from_le-le_bytes 2 (length ss) few,
      )
      (read_symbols_from-put ss short)

-- What the length bytes of the format can express.
pub record Fits (p : CompiledProgram) : Type 0 where
  pub name : IsShort p.name
  pub implements : AreShort p.implements
  pub storage_fields : AreShort p.storage_fields
  pub function_count : length p.functions < 256
  pub functions : All FitsFunction p.functions
  pub symbols : FitsSymbols p.symbol_names

-- What the format carries of a program.
unfoldable pub strip : CompiledProgram → CompiledProgram
strip p = record p { functions = map strip_function p.functions; used_modules = [] }

module _ (p : CompiledProgram) (fits : Fits p) where
  body : List ℕ
  body =
      put_text p.name
      ++ (put_texts p.implements
          ++ (put_texts p.storage_fields
              ++ (length p.functions % 256
                  ∷ (put_all put_function p.functions ++ put_symbols p.symbol_names))))

  read_program-body : read_program 3 (1 ∷ body) ≡ ok (strip p, put_symbols p.symbol_names)
  unfolding read_program body strip byte
  read_program-body = simp (
    text-put_text p.name _ fits.name,
    texts-put_texts p.implements _ fits.implements,
    texts-put_texts p.storage_fields _ fits.storage_fields,
    mod-eq_of_lt fits.function_count,
    repeat-put_all (read_function 3) put_function FitsFunction strip_function
        read_function-put_function p.functions _ fits.functions,
    read_symbols-put_symbols p.symbol_names fits.symbols,
  )

finish : Loaded (CompiledProgram × List ℕ) → Loaded CompiledProgram
finish r = elim r [ ok r ↦ ok r.0 | err e ↦ err e | panicked ↦ panicked ]

from_cubebin_header :
    (bs : List ℕ) → from_cubebin (lit "CUBE" ++ 3 ∷ 1 ∷ bs) ≡ finish (read_program 3 (1 ∷ bs))
unfolding from_cubebin finish
from_cubebin_header bs = rw (le→ltb_false (length (lit "CUBE" ++ 3 ∷ 1 ∷ bs)) 6 (omega arith))

-- A program within the format's bounds loads as it was written, without labels, debug lines,
-- override marks, access attributes, `@once` marks and used modules.
pub from_cubebin-to_cubebin :
    (p : CompiledProgram) → Fits p → from_cubebin (to_cubebin p) ≡ ok (strip p)
unfolding to_cubebin body finish
from_cubebin-to_cubebin p fits =
    from_cubebin_header (body p fits) ∙ ap finish (read_program-body p fits)
