-- ===== src/Vsa/Bundle.antt =====
-- A bundle's two-level accumulation against the plain element-wise sum (src/vm/hypervec.rs:
-- `Hypervec::bundle`), and the range of the inner accumulator, an `i16`.
use cubelang.Base.{
  ◌<◌, ◌^◌, length-take, ℕ, zero, suc, ◌+◌, ◌≤◌, List, [], ◌∷◌, ◌++◌, length, take, drop, all, All,
  ◌≡◌, ◌==◌, ==_iff, ==_refl, Bool-cases, true, none, some, if◌then◌else◌, subst, refl, ap, sym,
  ◌∙◌, arith, take-append-drop, length-drop, inl, inr,
}
use cubelang.Base.Int.{ℤ, pos, pos_part, neg_part, ◌+ℤ◌, int_laws}
use cubelang.Vsa.Hypervec.{
  Hypervec, IsSign, IsBipolar, zip_with, replicate, add_all, add_chunks, chunk_size, bundle,
  sign_from_sum,
}

abbrev pub HasDim : ℕ → Hypervec → Type 0
HasDim d v = length v ≡ d

+ℤ_assoc : (a b c : ℤ) → (a +ℤ b) +ℤ c ≡ a +ℤ (b +ℤ c)
+ℤ_assoc a b c = omega int_laws

+ℤ_zero : (a : ℤ) → a +ℤ pos 0 ≡ a
+ℤ_zero a = omega int_laws

zip_assoc :
    (a b c : List ℤ) → zip_with ◌+ℤ◌ (zip_with ◌+ℤ◌ a b) c ≡ zip_with ◌+ℤ◌ a (zip_with ◌+ℤ◌ b c)
unfolding zip_with
zip_assoc [] b c = refl
zip_assoc (x ∷ a) [] c = refl
zip_assoc (x ∷ a) (y ∷ b) [] = refl
zip_assoc (x ∷ a) (y ∷ b) (z ∷ c) = cc (+ℤ_assoc x y z, zip_assoc a b c)

zip_zero : (a : List ℤ) → zip_with ◌+ℤ◌ a (replicate (length a) (pos 0)) ≡ a
unfolding zip_with replicate
zip_zero [] = refl
zip_zero (x ∷ a) = cc (+ℤ_zero x, zip_zero a)

length-zip_add : (a b : List ℤ) → length b ≡ length a → length (zip_with ◌+ℤ◌ a b) ≡ length a
unfolding zip_with
length-zip_add [] b e = refl
length-zip_add (x ∷ a) [] e = absurd (omega arith)
length-zip_add (x ∷ a) (y ∷ b) e = ap suc (length-zip_add a b (omega arith))

add_all-zip :
    (acc tmp : List ℤ) (vs : List Hypervec)
    → zip_with ◌+ℤ◌ acc (add_all tmp vs) ≡ add_all (zip_with ◌+ℤ◌ acc tmp) vs
unfolding add_all
add_all-zip acc tmp [] = refl
add_all-zip acc tmp (v ∷ vs) =
    add_all-zip acc (zip_with ◌+ℤ◌ tmp v) vs
    ∙ ap (λ (l : List ℤ). add_all l vs) (sym (zip_assoc acc tmp v))

add_all-append :
    (acc : List ℤ) (us vs : List Hypervec) → add_all acc (us ++ vs) ≡ add_all (add_all acc us) vs
unfolding add_all
add_all-append acc [] vs = refl
add_all-append acc (u ∷ us) vs = add_all-append (zip_with ◌+ℤ◌ acc u) us vs

length-add_all :
    (acc : List ℤ) (vs : List Hypervec)
    → All (HasDim (length acc)) vs
    → length (add_all acc vs) ≡ length acc
unfolding add_all
length-add_all acc [] h = refl
length-add_all acc (v ∷ vs) h =
    let e = length-zip_add acc v h.0 in length-add_all (zip_with ◌+ℤ◌ acc v) vs (rw e h.1) ∙ e

All-take {ℓ} : {A : Type ℓ} (P : A → Type 0) (n : ℕ) (xs : List A) → All P xs → All P (take n xs)
All-take P zero xs h = tt
All-take P (suc n) [] h = tt
All-take P (suc n) (x ∷ xs) h = (h.0, All-take P n xs h.1)

All-drop {ℓ} : {A : Type ℓ} (P : A → Type 0) (n : ℕ) (xs : List A) → All P xs → All P (drop n xs)
All-drop P zero xs h = h
All-drop P (suc n) [] h = tt
All-drop P (suc n) (x ∷ xs) h = All-drop P n xs h.1

-- Chunk by chunk or vector by vector, the sums are the same, with fuel for every vector.
pub add_chunks-add_all :
    (f : ℕ) (acc : List ℤ) (vs : List Hypervec)
    → length vs ≤ f
    → All (HasDim (length acc)) vs
    → add_chunks f (length acc) acc vs ≡ add_all acc vs
unfolding add_chunks
add_chunks-add_all zero acc [] le h = unfold add_all in refl
add_chunks-add_all zero acc (v ∷ vs) le h = absurd (omega arith)
add_chunks-add_all (suc f) acc [] le h = unfold add_all in refl
add_chunks-add_all (suc f) acc (v ∷ vs) le h =
    let chunk = take chunk_size (v ∷ vs) in
    let rest = drop chunk_size (v ∷ vs) in
    let sums =
      add_all-zip acc (replicate (length acc) (pos 0)) chunk
      ∙ ap (λ (l : List ℤ). add_all l chunk) (zip_zero acc) in
    let dims = length-add_all acc chunk (All-take (HasDim (length acc)) chunk_size (v ∷ vs) h) in
    let shorter = length-drop chunk_size (v ∷ vs) in
    ap (λ (l : List ℤ). add_chunks f (length acc) l rest) sums
    ∙ ap (λ (d : ℕ). add_chunks f d (add_all acc chunk) rest) (sym dims)
    ∙ add_chunks-add_all f (add_all acc chunk) rest (omega arith)
        (rw dims (All-drop (HasDim (length acc)) chunk_size (v ∷ vs) h))
    ∙ sym (add_all-append acc chunk rest)
    ∙ ap (λ (l : List Hypervec). add_all acc l) (take-append-drop chunk_size (v ∷ vs))

abbrev pub Within : ℕ → ℤ → Type 0
Within n x = (pos_part x ≤ n) × (neg_part x ≤ n)

sign_bound : (n : ℕ) (x y : ℤ) → IsSign y → Within n x → Within (suc n) (x +ℤ y)
unfolding ◌+ℤ◌
sign_bound n x y (inl e) h = ground arith
sign_bound n x y (inr e) h = ground arith

zip_bound :
    (n : ℕ) (tmp v : List ℤ)
    → IsBipolar v
    → All (Within n) tmp
    → All (Within (suc n)) (zip_with ◌+ℤ◌ tmp v)
unfolding zip_with
zip_bound n [] v b h = tt
zip_bound n (x ∷ tmp) [] b h = tt
zip_bound n (x ∷ tmp) (y ∷ v) b h = (sign_bound n x y b.0 h.0, zip_bound n tmp v b.1 h.1)

-- Adding bipolar vectors to sums within `n` keeps each sum within `n` and their number.
add_all_bounds :
    (n : ℕ) (tmp : List ℤ) (vs : List Hypervec)
    → All IsBipolar vs
    → All (Within n) tmp
    → All (Within (length vs + n)) (add_all tmp vs)
unfolding add_all
add_all_bounds n tmp [] b h = subst (λ (m : ℕ). All (Within m) tmp) (zero_plus n) h
  where
    zero_plus : (n : ℕ) → n ≡ 0 + n
    zero_plus n = omega arith
add_all_bounds n tmp (v ∷ vs) b h =
    subst (λ (m : ℕ). All (Within m) (add_all (zip_with ◌+ℤ◌ tmp v) vs)) (shift (length vs) n)
      (add_all_bounds (suc n) (zip_with ◌+ℤ◌ tmp v) vs b.1 (zip_bound n tmp v b.0 h))
  where
    shift : (a n : ℕ) → a + suc n ≡ suc a + n
    shift a n = omega arith

-- The range of an `i16`, from -2^15 to 2^15 - 1.
abbrev pub IsI16 : ℤ → Type 0
IsI16 x = (pos_part x < 2 ^ 15) × (neg_part x ≤ 2 ^ 15)

zeros-Within : (d : ℕ) → All (Within 0) (replicate d (pos 0))
unfolding replicate
zeros-Within zero = tt
zeros-Within (suc d) = ((omega arith, omega arith), zeros-Within d)

Within-IsI16 : (n : ℕ) (xs : List ℤ) → n ≤ chunk_size → All (Within n) xs → All IsI16 xs
Within-IsI16 n [] le h = tt
Within-IsI16 n (x ∷ xs) le h = ((omega arith, omega arith), Within-IsI16 n xs le h.1)

-- Within a chunk of bipolar vectors no partial sum, after however many of them, leaves the range of
-- the `i16` accumulator that starts at zero.
pub add_all-IsI16 :
    (d k : ℕ) (vs : List Hypervec)
    → All IsBipolar vs
    → k ≤ chunk_size
    → All IsI16 (add_all (replicate d (pos 0)) (take k vs))
add_all-IsI16 d k vs b le =
    Within-IsI16 (length (take k vs) + 0) _ (omega (arith, length-take k vs)) (
      add_all_bounds 0 (replicate d (pos 0)) (take k vs) (All-take IsBipolar k vs b)
        (zeros-Within d))

all-All :
    (d : ℕ) (vs : List Hypervec)
    → all (λ (w : Hypervec). length w == d) vs ≡ true
    → All (HasDim d) vs
all-All d [] h = tt
all-All d (v ∷ vs) h = elim (Bool-cases (length v == d)) [
  | inl same ↦ ((==_iff _ _).0 same, all-All d vs (ground arith))
  | inr apart ↦ absurd (ground arith)
]

length-replicate : {A : Type 0} (n : ℕ) (a : A) → length (replicate n a) ≡ n
unfolding replicate
length-replicate zero a = refl
length-replicate (suc n) a = ap suc (length-replicate n a)

chunks_of_zeros :
    (d f : ℕ) (vs : List Hypervec)
    → length vs ≤ f
    → All (HasDim d) vs
    → add_chunks f d (replicate d (pos 0)) vs ≡ add_all (replicate d (pos 0)) vs
chunks_of_zeros d f vs le =
    subst
      (λ (n : ℕ).
        All (HasDim n) vs
        → add_chunks f n (replicate d (pos 0)) vs ≡ add_all (replicate d (pos 0)) vs)
      (length-replicate d (pos 0)) (add_chunks-add_all f (replicate d (pos 0)) vs le)

-- A bundle of vectors of one dimension is the sign of their element-wise sums, in one pass over
-- them; a bundle of none, or of two dimensions, panics.
pub bundle-majority :
    (v : Hypervec) (vs : List Hypervec)
    → (bundle [] ≡ none)
      × (bundle (v ∷ vs) ≡ (
          if all (λ (w : Hypervec). length w == length v) vs
          then some (sign_from_sum (add_all (replicate (length v) (pos 0)) (v ∷ vs)))
          else none))
unfolding bundle
bundle-majority v vs = (
  refl,
  elim (Bool-cases (all (λ (w : Hypervec). length w == length v) vs)) [
    | inr bad ↦ rw (==_refl (length v), bad) refl
    | inl good ↦
        rw (==_refl (length v), good)
          (ap (λ (sums : List ℤ). some (sign_from_sum sums))
            (chunks_of_zeros (length v) (suc (length vs)) (v ∷ vs) (omega arith)
              (refl, all-All (length v) vs good)))
  ],
)
