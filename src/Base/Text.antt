-- ===== src/Base/Text.antt =====
-- Texts. A `String` is the list of its UTF-8 bytes; `from_utf8_lossy` decodes with replacement.
use Prim.Native.Nat.{ℕ, zero, suc, ◌+◌, ◌-◌, ◌/◌, ◌%◌}
use Prim.Native.Char.{code}
use Prim.Native.String.{String}
use mathlib.Core.Path.{◌≡◌, refl, sym, ap, ◌∙◌}
use mathlib.Core.Bool.{Bool, true, false, ◌&&◌, ◌||◌}
use mathlib.Core.List.{List, [], ◌∷◌, ◌++◌, append_assoc, append-nil}
use native.Mathlib.Omega.{arith}
use cubelang.Base.Tests.{ltb, leb, ◌==◌, if◌then◌else◌}
use cubelang.Base.Int.{ℤ, pos, negsuc}

abbrev pub Text : Type 0
Text = List ℕ

-- A literal of the source, all ASCII.
abbrev pub lit : String → Text
lit String.[] = []
lit (String.◌∷◌ c s) = code c ∷ lit s

-- `x < y` on strings: byte by byte, a prefix first.
abbrev pub text_lt : Text → Text → Bool
text_lt [] [] = false
text_lt [] (y ∷ ys) = true
text_lt (x ∷ xs) [] = false
text_lt (x ∷ xs) (y ∷ ys) = if x == y then text_lt xs ys else ltb x y

-- `{:02x}` of a byte.
abbrev pub hex_digit : ℕ → ℕ
hex_digit d = if ltb d 10 then b'0' + d else b'a' + (d - 10)

abbrev pub hex2 : ℕ → Text
hex2 b = hex_digit (b / 16) ∷ hex_digit (b % 16) ∷ []

-- Decimal digits; a number below 2^64 has at most twenty.
digits_from : ℕ → ℕ → Text → Text
digits_from zero n acc = acc
digits_from (suc f) n acc =
    let rest = digits_from f (n / 10) ((b'0' + n % 10) ∷ acc) in
    if ltb n 10 then (b'0' + n) ∷ acc else rest

unfoldable pub show_nat : ℕ → Text
unfolding digits_from
show_nat n = digits_from 20 n []

unfoldable pub show_int : ℤ → Text
unfolding show_nat
show_int (pos n) = show_nat n
show_int (negsuc n) = b'-' ∷ show_nat (suc n)

-- The decoder's state between two bytes: at the start of a character, or inside one, with the
-- bytes still to come, the range of the next one and the bytes read.
pub data Decoder : Type 0 where
  start : Decoder
  inside : ℕ → ℕ → ℕ → Text → Decoder

-- U+FFFD
abbrev pub replacement : Text
replacement = 0xef ∷ 0xbf ∷ 0xbd ∷ []

-- What the first byte of a character decides: the bytes put out, and the state after it.
unfoldable pub first_byte : ℕ → Text × Decoder
first_byte b =
    if ltb b 0x80
    then (b ∷ [], start)
    else if ltb b 0xc2
    then (replacement, start)
    else if ltb b 0xe0
    then ([], inside 0 0x80 0xbf (b ∷ []))
    else if b == 0xe0
    then ([], inside 1 0xa0 0xbf (b ∷ []))
    else if b == 0xed
    then ([], inside 1 0x80 0x9f (b ∷ []))
    else if ltb b 0xf0
    then ([], inside 1 0x80 0xbf (b ∷ []))
    else if b == 0xf0
    then ([], inside 2 0x90 0xbf (b ∷ []))
    else if ltb b 0xf4
    then ([], inside 2 0x80 0xbf (b ∷ []))
    else if b == 0xf4
    then ([], inside 2 0x80 0x8f (b ∷ []))
    else (replacement, start)

-- `inside n`: n more bytes come after the next one.
advance : ℕ → Text → Text × Decoder
advance zero seen = (seen, start)
advance (suc n) seen = ([], inside n 0x80 0xbf seen)

unfoldable pub next_byte : Decoder → ℕ → Text × Decoder
unfolding advance first_byte
next_byte start b = first_byte b
next_byte (inside n lo hi seen) b =
    if leb lo b && leb b hi
    then advance n (seen ++ b ∷ [])
    else (replacement ++ (first_byte b).0, (first_byte b).1)

decode_from : Decoder → Text → Text
decode_from start [] = []
decode_from (inside n lo hi seen) [] = replacement
decode_from d (b ∷ bs) = let (out, d') = next_byte d b in out ++ decode_from d' bs

-- `String::from_utf8_lossy`
unfoldable pub from_utf8_lossy : Text → Text
unfolding decode_from next_byte
from_utf8_lossy bs = decode_from start bs

-- Well-formed input: no byte is refused, and the text does not end inside a character.
accepts : Decoder → ℕ → Bool
accepts start b = ltb b 0x80 || (leb 0xc2 b && leb b 0xf4)
accepts (inside n lo hi seen) b = leb lo b && leb b hi

unfoldable pub well_formed_from : Decoder → Text → Bool
unfolding accepts next_byte
well_formed_from start [] = true
well_formed_from (inside n lo hi seen) [] = false
well_formed_from d (b ∷ bs) = accepts d b && well_formed_from (next_byte d b).1 bs

-- The bytes of a `String`, which is UTF-8 by the language.
abbrev pub IsUtf8 : Text → Type 0
IsUtf8 s = well_formed_from start s ≡ true

pending : Decoder → Text
pending start = []
pending (inside n lo hi seen) = seen

-- A byte that is accepted is kept, once its character is complete.
next_byte-pending :
    (d : Decoder) (b : ℕ)
    → accepts d b ≡ true
    → (next_byte d b).0 ++ pending (next_byte d b).1 ≡ pending d ++ b ∷ []
unfolding accepts next_byte pending
next_byte-pending start b h = ground arith
next_byte-pending (inside zero lo hi seen) b h = rw (h, append-nil)
next_byte-pending (inside (suc n) lo hi seen) b h = rw h

decode_step :
    (d : Decoder) (b : ℕ) (bs : Text)
    → accepts d b ≡ true
    → decode_from (next_byte d b).1 bs ≡ pending (next_byte d b).1 ++ bs
    → (next_byte d b).0 ++ decode_from (next_byte d b).1 bs ≡ pending d ++ b ∷ bs
decode_step d b bs h ih = rw ih (
    sym (append_assoc (next_byte d b).0 (pending (next_byte d b).1) bs)
    ∙ ap (λ (l : Text). l ++ bs) (next_byte-pending d b h)
    ∙ append_assoc (pending d) (b ∷ []) bs)

both : (a b : Bool) → (a && b) ≡ true → (a ≡ true) × (b ≡ true)
both a b h = ground arith

decode_from-pending :
    (d : Decoder) (bs : Text) → well_formed_from d bs ≡ true → decode_from d bs ≡ pending d ++ bs
unfolding decode_from well_formed_from pending
decode_from-pending start [] h = refl
decode_from-pending (inside n lo hi seen) [] h = cc
decode_from-pending start (b ∷ bs) h =
    let (ok, rest) = both (accepts start b) _ h in
    decode_step start b bs ok (decode_from-pending (next_byte start b).1 bs rest)
decode_from-pending (inside n lo hi seen) (b ∷ bs) h =
    let (ok, rest) = both (accepts (inside n lo hi seen) b) _ h in
    decode_step (inside n lo hi seen) b bs ok
      (decode_from-pending (next_byte (inside n lo hi seen) b).1 bs rest)

pub from_utf8_lossy_lem : (s : Text) → IsUtf8 s → from_utf8_lossy s ≡ s
unfolding from_utf8_lossy pending
from_utf8_lossy_lem s h = decode_from-pending start s h
