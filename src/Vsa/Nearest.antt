-- ===== src/Vsa/Nearest.antt =====
-- What a query of the index answers (src/vm/index.rs: `HammingIndex::query`).
use cubelang.Base.{
  All-weaken, ℕ, zero, suc, ◌*◌, ◌≤◌, min, List, [], ◌∷◌, Bool-cases, some, map, leb, leb→le,
  length, take, length-map, All, ◌≡◌, refl, ap, sym, ◌∙◌, inl, inr, ◌⊎◌, subst, length-take,
  take_nil, arith,
}
use cubelang.Base.Int.{ℤ, pos, ◌-ℤ◌, ◌≤ℤ◌}
use cubelang.Vsa.Hypervec.{Hypervec, hamming_dist_packed}
use cubelang.Vsa.Index.{
  PackedHypervec, HammingIndex, pack, insert_sorted, sort_by_distance, distances, query,
}

-- Each distance is at most the next.
abbrev IsAscending : List (ℕ × ℕ) → Type 0
IsAscending [] = Unit
IsAscending (x ∷ xs) = All (λ (y : ℕ × ℕ). x.1 ≤ y.1) xs × IsAscending xs

-- Each similarity is at least every later one.
abbrev pub IsDescending : List (ℕ × ℤ) → Type 0
IsDescending [] = Unit
IsDescending (x ∷ xs) = All (λ (y : ℕ × ℤ). y.1 ≤ℤ x.1) xs × IsDescending xs

insert_sorted-All :
    (P : ℕ × ℕ → Type 0) (e : ℕ × ℕ) (xs : List (ℕ × ℕ))
    → P e
    → All P xs
    → All P (insert_sorted e xs)
unfolding insert_sorted
insert_sorted-All P e [] p h = (p, tt)
insert_sorted-All P e (x ∷ xs) p h = elim (Bool-cases (leb e.1 x.1)) [
  | inl le ↦ rw le (p, h)
  | inr gt ↦ rw gt (h.0, insert_sorted-All P e xs p h.1)
]

insert_sorted-IsAscending :
    (e : ℕ × ℕ) (xs : List (ℕ × ℕ)) → IsAscending xs → IsAscending (insert_sorted e xs)
unfolding insert_sorted
insert_sorted-IsAscending e [] h = (tt, tt)
insert_sorted-IsAscending e (x ∷ xs) h = elim (Bool-cases (leb e.1 x.1)) [
  | inl le ↦ rw le (
    (leb→le e.1 x.1 le, All-weaken (λ y. x.1 ≤ y.1) (λ y. e.1 ≤ y.1) xs (λ y q. ground arith) h.0),
    h,
  )
  | inr gt ↦ rw gt (
    insert_sorted-All (λ y. x.1 ≤ y.1) e xs (ground arith) h.0,
    insert_sorted-IsAscending e xs h.1,
  )
]

length-insert_sorted :
    (e : ℕ × ℕ) (xs : List (ℕ × ℕ)) → length (insert_sorted e xs) ≡ suc (length xs)
unfolding insert_sorted
length-insert_sorted e [] = refl
length-insert_sorted e (x ∷ xs) = ground (arith, length-insert_sorted e xs)

sorted :
    (xs : List (ℕ × ℕ))
    → IsAscending (sort_by_distance xs) × (length (sort_by_distance xs) ≡ length xs)
unfolding sort_by_distance
sorted [] = (tt, refl)
sorted (x ∷ xs) =
    let (asc, same) = sorted xs in
    (
      insert_sorted-IsAscending x (sort_by_distance xs) asc,
      length-insert_sorted x (sort_by_distance xs) ∙ ap suc same,
    )

similarity : ℕ → ℕ × ℕ → ℕ × ℤ
similarity dim e = (e.0, pos dim -ℤ pos (2 * e.1))

farther : (dim a b : ℕ) → a ≤ b → (pos dim -ℤ pos (2 * b)) ≤ℤ (pos dim -ℤ pos (2 * a))
unfolding ◌-ℤ◌
farther dim a b h = ground arith

abbrev pub IsIn : {A : Type 0} → A → List A → Type 0
IsIn x [] = ⊥
IsIn x (y ∷ ys) = (x ≡ y) ⊎ IsIn x ys

All-IsIn : (P : ℕ × ℕ → Type 0) (y : ℕ × ℕ) (xs : List (ℕ × ℕ)) → All P xs → IsIn y xs → P y
All-IsIn P y [] h i = absurd i
All-IsIn P y (x ∷ xs) h (inl e) = subst P (sym e) h.0
All-IsIn P y (x ∷ xs) h (inr i) = All-IsIn P y xs h.1 i

insert_sorted-IsIn :
    (y e : ℕ × ℕ) (xs : List (ℕ × ℕ)) → (y ≡ e) ⊎ IsIn y xs → IsIn y (insert_sorted e xs)
unfolding insert_sorted
insert_sorted-IsIn y e [] h = h
insert_sorted-IsIn y e (x ∷ xs) h = elim (Bool-cases (leb e.1 x.1)) [
  | inl le ↦ rw le h
  | inr gt ↦ rw gt (elim h [
    | inl new ↦ inr (insert_sorted-IsIn y e xs (inl new))
    | inr (inl same) ↦ inl same
    | inr (inr old) ↦ inr (insert_sorted-IsIn y e xs (inr old))
  ])
]

sort-IsIn : (y : ℕ × ℕ) (xs : List (ℕ × ℕ)) → IsIn y xs → IsIn y (sort_by_distance xs)
unfolding sort_by_distance
sort-IsIn y [] h = h
sort-IsIn y (x ∷ xs) (inl e) = insert_sorted-IsIn y x (sort_by_distance xs) (inl e)
sort-IsIn y (x ∷ xs) (inr i) = insert_sorted-IsIn y x (sort_by_distance xs) (inr (sort-IsIn y xs i))

-- An element of an ascending list is among the first `k`, or none of those is greater.
taken_or_after :
    (k : ℕ) (y : ℕ × ℕ) (xs : List (ℕ × ℕ))
    → IsAscending xs
    → IsIn y xs
    → IsIn y (take k xs) ⊎ All (λ (h : ℕ × ℕ). h.1 ≤ y.1) (take k xs)
taken_or_after zero y xs asc i = inr tt
taken_or_after (suc k) y [] asc i = absurd i
taken_or_after (suc k) y (x ∷ xs) asc (inl e) = inl (inl e)
taken_or_after (suc k) y (x ∷ xs) asc (inr i) = elim (taken_or_after k y xs asc.1 i) [
  | inl early ↦ inl (inr early)
  | inr late ↦ inr (All-IsIn (λ z. x.1 ≤ z.1) y xs asc.0 i, late)
]

take-All : (P : ℕ × ℕ → Type 0) (k : ℕ) (xs : List (ℕ × ℕ)) → All P xs → All P (take k xs)
take-All P zero xs h = tt
take-All P (suc k) [] h = tt
take-All P (suc k) (x ∷ xs) h = (h.0, take-All P k xs h.1)

take-IsAscending : (k : ℕ) (xs : List (ℕ × ℕ)) → IsAscending xs → IsAscending (take k xs)
take-IsAscending zero xs h = tt
take-IsAscending (suc k) [] h = tt
take-IsAscending (suc k) (x ∷ xs) h = (take-All _ k xs h.0, take-IsAscending k xs h.1)

module _ (dim : ℕ) where
  map-All :
      (P : ℕ × ℤ → Type 0) (Q : ℕ × ℕ → Type 0) (xs : List (ℕ × ℕ))
      → ((x : ℕ × ℕ) → Q x → P (similarity dim x))
      → All Q xs
      → All P (map (similarity dim) xs)
  map-All P Q [] f h = tt
  map-All P Q (x ∷ xs) f h = (f x h.0, map-All P Q xs f h.1)

  map-IsDescending : (xs : List (ℕ × ℕ)) → IsAscending xs → IsDescending (map (similarity dim) xs)
  unfolding similarity
  map-IsDescending [] h = tt
  map-IsDescending (x ∷ xs) h = (
    map-All (λ y. y.1 ≤ℤ (similarity dim x).1) (λ y. x.1 ≤ y.1) xs (λ y le. farther dim x.1 y.1 le)
        h.0,
    map-IsDescending xs h.1,
  )

map-IsIn : {A B : Type 0} (f : A → B) (y : A) (xs : List A) → IsIn y xs → IsIn (f y) (map f xs)
map-IsIn f y [] i = i
map-IsIn f y (x ∷ xs) (inl e) = inl (ap f e)
map-IsIn f y (x ∷ xs) (inr i) = inr (map-IsIn f y xs i)

-- The similarity of a query to an entry, over the dimension.
abbrev pub near : HammingIndex → Hypervec → ℕ × PackedHypervec → ℕ × ℤ
near ix q e = (e.0, pos ix.dim -ℤ pos (2 * hamming_dist_packed (pack q).words e.1.words))

hits_of : HammingIndex → Hypervec → ℕ → List (ℕ × ℤ)
hits_of ix q k = map (similarity ix.dim) (take k (sort_by_distance (distances (pack q) ix.entries)))

query_hits :
    (ix : HammingIndex) (q : Hypervec) (k : ℕ) (hits : List (ℕ × ℤ))
    → query ix q k ≡ some hits
    → hits ≡ hits_of ix q k
unfolding query hits_of similarity distances sort_by_distance
query_hits ix q k hits e = go ix.entries refl
  where
    go : (es : List (ℕ × PackedHypervec)) → ix.entries ≡ es → hits ≡ hits_of ix q k
    go [] p =
        let empty : hits ≡ [] = ground arith in
        empty ∙ rw (p, distances, sort_by_distance, take_nil) refl
    go (x ∷ es) p = ground arith

-- A distance that is the query's to one of the entries.
abbrev IsDistance : HammingIndex → Hypervec → ℕ × ℕ → Type 0
IsDistance ix q d =
    (e : ℕ × PackedHypervec) × IsIn e ix.entries
    × (d ≡ (e.0, hamming_dist_packed (pack q).words e.1.words))

distances-IsDistance :
    (ix : HammingIndex) (q : Hypervec) (es : List (ℕ × PackedHypervec))
    → ((e : ℕ × PackedHypervec) → IsIn e es → IsIn e ix.entries)
    → All (IsDistance ix q) (distances (pack q) es)
unfolding distances
distances-IsDistance ix q [] h = tt
distances-IsDistance ix q (e ∷ es) h =
    ((e, h e (inl refl), refl), distances-IsDistance ix q es (λ y i. h y (inr i)))

sort-All : (P : ℕ × ℕ → Type 0) (xs : List (ℕ × ℕ)) → All P xs → All P (sort_by_distance xs)
unfolding sort_by_distance
sort-All P [] h = tt
sort-All P (x ∷ xs) h = insert_sorted-All P x (sort_by_distance xs) h.0 (sort-All P xs h.1)

-- A hit is an entry with the query's similarity to it.
abbrev pub IsHit : HammingIndex → Hypervec → ℕ × ℤ → Type 0
IsHit ix q h = (e : ℕ × PackedHypervec) × IsIn e ix.entries × (h ≡ near ix q e)

hits-IsHit : (ix : HammingIndex) (q : Hypervec) (k : ℕ) → All (IsHit ix q) (hits_of ix q k)
unfolding hits_of similarity
hits-IsHit ix q k =
    map-All ix.dim (IsHit ix q) (IsDistance ix q)
      (take k (sort_by_distance (distances (pack q) ix.entries)))
      (λ d (e, i, same). (e, i, ap (similarity ix.dim) same))
      (take-All (IsDistance ix q) k _
        (sort-All (IsDistance ix q) _ (distances-IsDistance ix q ix.entries (λ y i. i))))

-- A query that answers gives min(k, entries) hits in order of falling similarity; each hit is an
-- entry with the query's similarity to it, and an entry is one of the hits or no more similar than
-- any of them.
pub query-nearest :
    (ix : HammingIndex) (q : Hypervec) (k : ℕ) (hits : List (ℕ × ℤ))
    → query ix q k ≡ some hits
    → (length hits ≡ min k (length ix.entries))
      × IsDescending hits
      × All (IsHit ix q) hits
      × ((e : ℕ × PackedHypervec)
          → IsIn e ix.entries
          → IsIn (near ix q e) hits ⊎ All (λ (h : ℕ × ℤ). (near ix q e).1 ≤ℤ h.1) hits)
unfolding hits_of distances similarity
query-nearest ix q k hits e =
    let ds = distances (pack q) ix.entries in
    let (asc, same) = sorted ds in
    rw (query_hits ix q k hits e) (
      length-map (similarity ix.dim) (take k (sort_by_distance ds))
          ∙ length-take k (sort_by_distance ds)
          ∙ ap (λ (n : ℕ). min k n) (same ∙ length-map _ ix.entries),
      map-IsDescending ix.dim (take k (sort_by_distance ds)) (take-IsAscending k _ asc),
      hits-IsHit ix q k,
      (λ x i.
          elim (taken_or_after k (x.0, hamming_dist_packed (pack q).words x.1.words)
            (sort_by_distance ds) asc
            (sort-IsIn _ ds (
              map-IsIn
                (λ (y : ℕ × PackedHypervec). (y.0, hamming_dist_packed (pack q).words y.1.words)) x
                ix.entries i))) [
                  | inl early ↦ inl (map-IsIn (similarity ix.dim) _ _ early)
                  | inr late ↦ inr (
                      map-All ix.dim _ (λ h. h.1 ≤ hamming_dist_packed (pack q).words x.1.words) _
                        (λ h le. farther ix.dim h.1 _ le) late)
                ]),
    )
