-- ===== src/Vsa/Hypervec.antt =====
-- Bipolar hypervectors (src/vm/hypervec.rs). An element is an `i8` that is 1 or -1; `none` is the
-- panic of an assertion on the dimensions.
use Prim.Native.Nat.{bit_xor, bit_or}
use cubelang.Base.{
  ℕ, zero, suc, ◌+◌, ◌-◌, ◌*◌, ◌/◌, ◌%◌, ◌^◌, List, [], ◌∷◌, ◌++◌, Option, none, some, map, ◌==◌,
  if◌then◌else◌, length, take, drop, set, all, All, ◌≡◌, ◌⊎◌,
}
use cubelang.Base.Int.{ℤ, pos, negsuc, ◌+ℤ◌, ◌-ℤ◌, ◌*ℤ◌, leb_ℤ, ltb_ℤ}

abbrev pub Hypervec : Type 0
Hypervec = List ℤ

abbrev pub IsSign : ℤ → Type 0
IsSign x = (x ≡ pos 1) ⊎ (x ≡ negsuc 0)

abbrev pub IsBipolar : Hypervec → Type 0
IsBipolar v = All IsSign v

unfoldable pub zip_with : {A B C : Type 0} → (A → B → C) → List A → List B → List C
zip_with f [] ys = []
zip_with f (x ∷ xs) [] = []
zip_with f (x ∷ xs) (y ∷ ys) = f x y ∷ zip_with f xs ys

unfoldable pub replicate : {A : Type 0} → ℕ → A → List A
replicate zero a = []
replicate (suc n) a = a ∷ replicate n a

unfoldable pub ones : ℕ → Hypervec
ones dim = replicate dim (pos 1)

-- The element-wise product.
unfoldable pub bind : Hypervec → Hypervec → Option Hypervec
bind a b = if length a == length b then some (zip_with ◌*ℤ◌ a b) else none

unfoldable pub unbind : Hypervec → Hypervec → Option Hypervec
unbind v key = bind v key

-- `sign_from_sum`: a tie is broken by 1.
unfoldable pub sign_from_sum : List ℤ → Hypervec
sign_from_sum sum = map (λ s. if leb_ℤ (pos 0) s then pos 1 else negsuc 0) sum

-- `*t += x` over the vectors of a chunk, element by element.
unfoldable pub add_all : List ℤ → List Hypervec → List ℤ
add_all tmp [] = tmp
add_all tmp (v ∷ vs) = add_all (zip_with ◌+ℤ◌ tmp v) vs

abbrev pub chunk_size : ℕ
chunk_size = 64

-- The two accumulators: the chunk's sums start at zero and are added to the running sums. The fuel
-- is the number of vectors, of which each chunk takes one at least.
unfoldable pub add_chunks : ℕ → ℕ → List ℤ → List Hypervec → List ℤ
add_chunks zero dim acc vs = acc
add_chunks (suc f) dim acc [] = acc
add_chunks (suc f) dim acc (v ∷ vs) =
    let chunk = take chunk_size (v ∷ vs) in
    add_chunks f dim (zip_with ◌+ℤ◌ acc (add_all (replicate dim (pos 0)) chunk))
      (drop chunk_size (v ∷ vs))

-- The element-wise majority; the assertions want a first vector and equal dimensions.
unfoldable pub bundle : List Hypervec → Option Hypervec
bundle [] = none
bundle (v ∷ vs) =
    let dim = length v in
    if all (λ (w : Hypervec). length w == dim) (v ∷ vs)
    then some (sign_from_sum (add_chunks (length (v ∷ vs)) dim (replicate dim (pos 0)) (v ∷ vs)))
    else none

-- The left rotation by `k` places, and its inverse.
unfoldable pub permute : Hypervec → ℕ → Hypervec
permute v k =
    let j = k % length v in if length v == 0 then v else if j == 0 then v else drop j v ++ take j v

unfoldable pub unpermute : Hypervec → ℕ → Hypervec
unpermute v k = if length v == 0 then v else permute v (length v - k % length v)

-- Bits packed into 64-bit words, `words[i / 64] |= 1 << (i % 64)` for each positive element.
abbrev pub word_at : List ℕ → ℕ → ℕ
word_at [] i = 0
word_at (w ∷ ws) zero = w
word_at (w ∷ ws) (suc i) = word_at ws i

unfoldable pub pack_from : ℕ → List ℕ → List ℤ → List ℕ
pack_from i words [] = words
pack_from i words (x ∷ xs) =
    pack_from (suc i)
      (if ltb_ℤ (pos 0) x
        then set words (i / 64) (bit_or (word_at words (i / 64)) (2 ^ (i % 64)))
        else words)
      xs

unfoldable pub pack_bits : List ℤ → List ℕ
unfolding pack_from
pack_bits v = pack_from 0 (replicate ((length v + 63) / 64) 0) v

-- `u64::count_ones`
unfoldable pub count_ones_from : ℕ → ℕ → ℕ
count_ones_from zero w = 0
count_ones_from (suc k) w = w % 2 + count_ones_from k (w / 2)

unfoldable pub count_ones : ℕ → ℕ
unfolding count_ones_from
count_ones w = count_ones_from 64 w

unfoldable pub sum : List ℕ → ℕ
sum [] = 0
sum (x ∷ xs) = x + sum xs

unfoldable pub hamming_dist_packed : List ℕ → List ℕ → ℕ
unfolding sum
hamming_dist_packed a b = sum (zip_with (λ wa wb. count_ones (bit_xor wa wb)) a b)

unfoldable pub hamming_dist : Hypervec → Hypervec → Option ℕ
hamming_dist a b =
    if length a == length b then some (hamming_dist_packed (pack_bits a) (pack_bits b)) else none

-- A similarity, by its numerator over the dimension: `(d - 2 * dist) / d`.
unfoldable pub cosine_sim : Hypervec → Hypervec → Option ℤ
cosine_sim a b = elim (hamming_dist a b) [
  | none ↦ none
  | some dist ↦ some (pos (length a) -ℤ pos (2 * dist))
]
