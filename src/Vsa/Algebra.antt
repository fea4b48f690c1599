-- ===== src/Vsa/Algebra.antt =====
-- The algebra of hypervectors: binding is its own inverse, rotation is invertible, and the chunked
-- accumulation of a bundle is the plain element-wise sum, within the range of its accumulators.
use native.Mathlib.Nat.{mul_comm, add_comm, mod-eq_of_lt, mod-lt, mod_self}
use cubelang.Base.{
  none, ◌↔◌, ℕ, zero, suc, ◌-◌, ◌*◌, ◌%◌, ◌≤◌, ◌<◌, [], ◌∷◌, ◌++◌, false, some, ◌==◌, ==_iff,
  length, take, drop, ◌≡◌, ◌≢◌, inl, inr, refl, ap, sym, ◌∙◌, arith, take-append, take-append-drop,
  drop_nil, take_nil, append-nil, drop-append, length-append, length-take, length-drop, Bool-cases,
}
use cubelang.Base.Int.{ℤ, pos_part, neg_part, ◌*ℤ◌}
use cubelang.Vsa.Hypervec.{Hypervec, IsSign, IsBipolar, zip_with, bind, unbind, permute, unpermute}

sign_cancel : (a b : ℤ) → IsSign a → IsSign b → (a *ℤ b) *ℤ a ≡ b
unfolding ◌*ℤ◌
sign_cancel a b (inl p) (inl q) = rw (p, q)
sign_cancel a b (inl p) (inr q) = rw (p, q)
sign_cancel a b (inr p) (inl q) = rw (p, q)
sign_cancel a b (inr p) (inr q) = rw (p, q)

IsSign-product : (a b : ℤ) → IsSign a → IsSign b → IsSign (a *ℤ b)
unfolding ◌*ℤ◌
IsSign-product a b (inl p) (inl q) = inl (rw (p, q))
IsSign-product a b (inl p) (inr q) = inr (rw (p, q))
IsSign-product a b (inr p) (inl q) = inr (rw (p, q))
IsSign-product a b (inr p) (inr q) = inl (rw (p, q))

zip_cancel :
    (a b : Hypervec)
    → IsBipolar a
    → IsBipolar b
    → length a ≡ length b
    → zip_with ◌*ℤ◌ (zip_with ◌*ℤ◌ a b) a ≡ b
unfolding zip_with
zip_cancel [] [] h k e = refl
zip_cancel [] (y ∷ b) h k e = absurd (omega arith)
zip_cancel (x ∷ a) [] h k e = absurd (omega arith)
zip_cancel (x ∷ a) (y ∷ b) h k e =
    cc (sign_cancel x y h.0 k.0, zip_cancel a b h.1 k.1 (omega arith))

zip-IsBipolar : (a b : Hypervec) → IsBipolar a → IsBipolar b → IsBipolar (zip_with ◌*ℤ◌ a b)
unfolding zip_with
zip-IsBipolar [] b h k = tt
zip-IsBipolar (x ∷ a) [] h k = tt
zip-IsBipolar (x ∷ a) (y ∷ b) h k = (IsSign-product x y h.0 k.0, zip-IsBipolar a b h.1 k.1)

length-zip : (a b : Hypervec) → length a ≡ length b → length (zip_with ◌*ℤ◌ a b) ≡ length a
unfolding zip_with
length-zip [] b e = refl
length-zip (x ∷ a) [] e = absurd (omega arith)
length-zip (x ∷ a) (y ∷ b) e = ap suc (length-zip a b (omega arith))

bind_equal_dims : (a b : Hypervec) → length a ≡ length b → bind a b ≡ some (zip_with ◌*ℤ◌ a b)
unfolding bind
bind_equal_dims a b e = rw ((==_iff (length a) (length b)).1 e)

*ℤ_comm : (x y : ℤ) → x *ℤ y ≡ y *ℤ x
unfolding ◌*ℤ◌
*ℤ_comm x y = rw (
  mul_comm (pos_part x) (pos_part y),
  mul_comm (neg_part x) (neg_part y),
  mul_comm (pos_part x) (neg_part y),
  mul_comm (neg_part x) (pos_part y),
  add_comm (neg_part y * pos_part x) (pos_part y * neg_part x),
)

zip_comm : (a b : Hypervec) → zip_with ◌*ℤ◌ a b ≡ zip_with ◌*ℤ◌ b a
unfolding zip_with
zip_comm [] [] = refl
zip_comm [] (y ∷ b) = refl
zip_comm (x ∷ a) [] = refl
zip_comm (x ∷ a) (y ∷ b) = cc (*ℤ_comm x y, zip_comm a b)

unbind_product :
    (a b : Hypervec)
    → IsBipolar a
    → IsBipolar b
    → length a ≡ length b
    → unbind (zip_with ◌*ℤ◌ a b) a ≡ some b
unfolding unbind
unbind_product a b h k e =
    bind_equal_dims (zip_with ◌*ℤ◌ a b) a (length-zip a b e) ∙ ap some (zip_cancel a b h k e)

-- A bound pair of bipolar vectors of one dimension is a bipolar vector of that dimension, and
-- unbinding it by either of the two gives the other back.
pub unbind-bind :
    (role filler : Hypervec)
    → IsBipolar role
    → IsBipolar filler
    → length role ≡ length filler
    → (pair : Hypervec) × (bind role filler ≡ some pair)
      × IsBipolar pair
      × (length pair ≡ length role)
      × (unbind pair role ≡ some filler)
      × (unbind pair filler ≡ some role)
unbind-bind role filler h k e = (
  zip_with ◌*ℤ◌ role filler,
  bind_equal_dims role filler e,
  zip-IsBipolar role filler h k,
  length-zip role filler e,
  unbind_product role filler h k e,
  ap (λ (pair : Hypervec). unbind pair filler) (zip_comm role filler)
      ∙ unbind_product filler role k h (sym e),
)

bind_swap : (a b : Hypervec) → bind a b ≡ bind b a
unfolding bind
bind_swap a b = elim (Bool-cases (length a == length b)) [
  | inl e ↦
      rw (e, (==_iff (length b) (length a)).1 (sym ((==_iff _ _).0 e))) (ap some (zip_comm a b))
  | inr e ↦ ground (arith, zip_comm a b)
]

-- Binding does not depend on the order of its arguments, and panics exactly where their dimensions
-- differ.
pub bind_comm :
    (a b : Hypervec) → (bind a b ≡ bind b a) × ((bind a b ≡ none) ↔ (length a ≢ length b))
unfolding bind
bind_comm a b = (
  bind_swap a b,
  elim (Bool-cases (length a == length b)) [
    | inl e ↦ ((λ p. absurd (ground arith)), (λ ne. absurd (ne ((==_iff _ _).0 e))))
    | inr e ↦ ((λ p same. ground arith), (λ ne. ground arith))
  ],
)

nonempty : (n : ℕ) → (suc n == 0) ≡ false
nonempty n = ground arith

permute_by : (v : Hypervec) (k : ℕ) → permute v k ≡ drop (k % length v) v ++ take (k % length v) v
unfolding permute
permute_by [] k = rw (drop_nil (k % 0), take_nil (k % 0))
permute_by (x ∷ v) k = elim (Bool-cases (k % suc (length v) == 0)) [
  | inl e ↦
      rw (nonempty (length v), e)
        (rw ((==_iff (k % suc (length v)) 0).0 e) (sym (append-nil (x ∷ v))))
  | inr e ↦ rw (nonempty (length v), e)
]

rotate_back :
    (v : Hypervec) (n j : ℕ)
    → length v ≡ n
    → j ≤ n
    → drop (n - j) (drop j v ++ take j v) ++ take (n - j) (drop j v ++ take j v) ≡ v
rotate_back v n j e h =
    let len : length (drop j v) ≡ n - j = omega (arith, length-drop j v) in
    rw (← len) (
      rw (drop-append (drop j v) (take j v), take-append (drop j v) (take j v))
        (take-append-drop j v))

length-permute : (v : Hypervec) (k : ℕ) → length (permute v k) ≡ length v
length-permute v k = rw (permute_by v k) (
    omega (
      arith,
      length-append (drop (k % length v) v) (take (k % length v) v),
      length-drop (k % length v) v,
      length-take (k % length v) v,
    ))

unpermute_by :
    (w : Hypervec) (k : ℕ) → length w ≢ 0 → unpermute w k ≡ permute w (length w - k % length w)
unfolding unpermute
unpermute_by w k h = ground arith

sub_zero : (n : ℕ) → n - 0 ≡ n
sub_zero n = omega arith

rotate_back_mod :
    (v : Hypervec) (n j : ℕ)
    → length v ≡ n
    → j < n
    → drop ((n - j) % n) (drop j v ++ take j v) ++ take ((n - j) % n) (drop j v ++ take j v) ≡ v
rotate_back_mod v n zero e h =
    let whole : (n - 0) % n ≡ 0 = rw (sub_zero n) (mod_self n) in
    rw (whole, append-nil v) (append-nil v)
rotate_back_mod v n (suc j) e h =
    let short : (n - suc j) % n ≡ n - suc j = mod-eq_of_lt (omega arith) in
    rw short (rotate_back v n (suc j) e (omega arith))

-- Rotating back undoes a rotation, by any number of places.
pub unpermute-permute : (v : Hypervec) (k : ℕ) → unpermute (permute v k) k ≡ v
unfolding unpermute
unpermute-permute [] k = unfold permute in refl
unpermute-permute (x ∷ v) k =
    let n = suc (length v) in
    let w = permute (x ∷ v) k in
    let len = length-permute (x ∷ v) k in
    unpermute_by w k (omega arith)
    ∙ permute_by w (length w - k % length w)
    ∙ rw (len, permute_by (x ∷ v) k)
        (rotate_back_mod (x ∷ v) n (k % n) refl (mod-lt k (omega arith)))
