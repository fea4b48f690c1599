-- ===== src/Cubebin/Format.antt =====
-- The writer and the reader of the format, version 3.
use cubelang.Base.{
  ℕ, zero, suc, ◌%◌, ◌^◌, List, [], ◌∷◌, ◌++◌, Bool, false, ◌&&◌, ◌||◌, not, ltb, leb, ◌==◌,
  if◌then◌else◌, length, take, drop,
}
use cubelang.Base.Text.{Text, lit, from_utf8_lossy}
use cubelang.Base.Int.{le_bytes, from_le}
use cubelang.Base.Equal.{list_eq}
use cubelang.Program.{CompiledFunction, CompiledProgram, external}
use cubelang.Cubebin.Reader.{
  Reader, Loaded, ok, err, panicked, bad_magic, unsupported_version, pure, ◌>>=◌, byte, slice, text,
  texts, repeat,
}

abbrev pub cubebin_magic : List ℕ
cubebin_magic = lit "CUBE"

abbrev pub cubebin_version : ℕ
cubebin_version = 3

-- `buf.push(s.len() as u8); buf.extend_from_slice(s.as_bytes())`
unfoldable pub put_text : Text → List ℕ
put_text s = length s % 256 ∷ s

unfoldable pub put_all : {A : Type 0} → (A → List ℕ) → List A → List ℕ
put_all put [] = []
put_all put (a ∷ rest) = put a ++ put_all put rest

unfoldable pub put_texts : List Text → List ℕ
put_texts ss = length ss % 256 ∷ put_all put_text ss

unfoldable pub put_function : CompiledFunction → List ℕ
put_function f =
    put_text f.name
    ++ (put_texts f.params ++ (le_bytes 4 (length f.bytecode % 2 ^ 32) ++ f.bytecode))

unfoldable pub put_symbols : List Text → List ℕ
put_symbols ss = le_bytes 2 (length ss % 2 ^ 16) ++ put_all put_text ss

unfoldable pub to_cubebin : CompiledProgram → List ℕ
to_cubebin p =
    cubebin_magic
    ++ cubebin_version
      ∷ 1
      ∷ (put_text p.name
          ++ (put_texts p.implements
              ++ (put_texts p.storage_fields
                  ++ (length p.functions % 256
                      ∷ (put_all put_function p.functions ++ put_symbols p.symbol_names)))))

-- A function: its name, from version 3 its parameters, and its code. The other fields take the
-- values that the format does not carry.
unfoldable pub read_params : ℕ → Reader (List Text)
read_params version bs = if leb 3 version then texts bs else pure [] bs

unfoldable pub read_code : Reader (List ℕ)
read_code = do n ← slice 4; slice (from_le n)

unfoldable pub loaded_function : Text → List Text → List ℕ → CompiledFunction
loaded_function name params bytecode = record {
  name = name;
  params = params;
  bytecode = bytecode;
  labels = [];
  debug_lines = [];
  is_override = false;
  access = external;
  once = false;
}

unfoldable pub read_function : ℕ → Reader CompiledFunction
read_function version = do
  name ← text
  params ← read_params version
  bytecode ← read_code
  pure (loaded_function name params bytecode)

-- The symbol loop stops, without an error, where the bytes end.
unfoldable pub read_symbols_from : ℕ → List ℕ → List Text
read_symbols_from zero bs = []
read_symbols_from (suc n) [] = []
read_symbols_from (suc n) (len ∷ bs) =
    let rest = from_utf8_lossy (take len bs) ∷ read_symbols_from n (drop len bs) in
    if ltb (length bs) len then [] else rest

unfoldable pub read_symbols : ℕ → List ℕ → List Text
unfolding read_symbols_from
read_symbols version bs =
    if leb 2 version && leb 2 (length bs)
    then read_symbols_from (from_le (take 2 bs)) (drop 2 bs)
    else []

unfoldable pub read_program : ℕ → Reader CompiledProgram
read_program version = do
  programs ← byte
  name ← text
  implements ← texts
  storage_fields ← texts
  n ← byte
  functions ← repeat (read_function version) n
  λ bs. ok (
    (record {
      name = name;
      implements = implements;
      functions = functions;
      storage_fields = storage_fields;
      symbol_names = read_symbols version bs;
      used_modules = [];
    }),
    bs,
  )

abbrev pub is_supported : ℕ → Bool
is_supported version = (version == 1) || ((version == 2) || (version == 3))

-- The header is checked before anything is read behind it.
read_version : List ℕ → Loaded CompiledProgram
read_version [] = panicked
read_version (version ∷ bs) =
    if is_supported version
    then (elim (read_program version bs) [ ok r ↦ ok r.0 | err e ↦ err e | panicked ↦ panicked ])
    else err (unsupported_version version)

unfoldable pub from_cubebin : List ℕ → Loaded CompiledProgram
unfolding read_version
from_cubebin bs =
    if ltb (length bs) 6 || not (list_eq (take 4 bs) cubebin_magic)
    then err bad_magic
    else read_version (drop 4 bs)
