-- ===== src/Cubebin/Reader.antt =====
-- Reading a byte string: each step returns a value and the bytes left. An index past the end of the
-- slice is a panic of the program.
use cubelang.Base.{
  ℕ, zero, suc, List, [], ◌∷◌, ◌++◌, ◌≡◌, leb, if◌then◌else◌, length, take, drop, arith, le→leb,
  length-append, take-append, drop-append,
}
use cubelang.Base.Text.{Text, from_utf8_lossy}

pub data LoadError : Type 0 where
  bad_magic : LoadError
  unsupported_version : ℕ → LoadError

pub data Loaded (A : Type 0) : Type 0 where
  ok : A → Loaded A
  err : LoadError → Loaded A
  panicked : Loaded A

abbrev pub Reader : Type 0 → Type 0
Reader A = List ℕ → Loaded (A × List ℕ)

abbrev pub pure : {A : Type 0} → A → Reader A
pure a bs = ok (a, bs)

abbrev pub bind : {A B : Type 0} → Loaded A → (A → Loaded B) → Loaded B
bind (ok a) f = f a
bind (err e) f = err e
bind panicked f = panicked

infixl 5 ◌>>=◌ ◌>>◌
abbrev pub ◌>>=◌ : {A B : Type 0} → Reader A → (A → Reader B) → Reader B
◌>>=◌ m f bs = bind (m bs) (λ (a, rest). f a rest)

abbrev pub ◌>>◌ : {A B : Type 0} → Reader A → Reader B → Reader B
m >> k = m >>= λ _. k

-- `data[pos]`
unfoldable pub byte : Reader ℕ
byte [] = panicked
byte (b ∷ bs) = ok (b, bs)

-- `data[pos..pos + n]`
unfoldable pub slice : ℕ → Reader (List ℕ)
slice n bs = if leb n (length bs) then ok (take n bs, drop n bs) else panicked

unfoldable pub text : Reader Text
text = do n ← byte; s ← slice n; pure (from_utf8_lossy s)

unfoldable pub repeat : {A : Type 0} → Reader A → ℕ → Reader (List A)
repeat r zero = pure []
repeat r (suc n) = do a ← r; rest ← repeat r n; pure (a ∷ rest)

-- A length byte and that many texts.
unfoldable pub texts : Reader (List Text)
texts = do n ← byte; repeat text n

pub slice-append : (s rest : List ℕ) → slice (length s) (s ++ rest) ≡ ok (s, rest)
unfolding slice
slice-append s rest =
    rw (le→leb (length s) (length (s ++ rest)) (omega (arith, length-append s rest)))
      (rw (take-append s rest, drop-append s rest))
