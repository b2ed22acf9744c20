-- ===== src/Bytes/Words.antt =====
-- Words in memory: what `memcpy` writes, `memcpy` reads back.
use tek.Prelude.{
  ℕ, zero, suc, ◌+◌, ◌/◌, ◌^◌, ◌<◌, ◌≡◌, refl, ap, Option, none, some, List, [], ◌∷◌, ◌++◌, ◌>>=◌,
  arith, length, All,
}
use tek.Bytes.{IsByte, IsUll, le_bytes, le_value, fetch, fetch_ull}

pub length-le_bytes : (n v : ℕ) → length (le_bytes n v) ≡ n
unfolding le_bytes
length-le_bytes zero v = refl
length-le_bytes (suc n) v = ap suc (length-le_bytes n (v / 256))

pub le_bytes-IsByte : (n v : ℕ) → All IsByte (le_bytes n v)
unfolding le_bytes
le_bytes-IsByte zero v = tt
le_bytes-IsByte (suc n) v = (omega arith, le_bytes-IsByte n (v / 256))

pub le_value-le_bytes : (n v : ℕ) → v < 256 ^ n → le_value (le_bytes n v) ≡ v
unfolding le_bytes le_value
le_value-le_bytes zero v h = omega arith
le_value-le_bytes (suc n) v h = omega (arith, le_value-le_bytes n (v / 256) (omega arith))

pub fetch-append : (n : ℕ) (xs ys : List ℕ) → length xs ≡ n → fetch n (xs ++ ys) ≡ some (xs, ys)
unfolding fetch
fetch-append zero [] ys h = refl
fetch-append zero (x ∷ xs) ys h = absurd (omega arith)
fetch-append (suc n) [] ys h = absurd (omega arith)
fetch-append (suc n) (x ∷ xs) ys h = rw (fetch-append n xs ys (omega arith))

-- A read past the end of the object.
pub fetch_short : (n : ℕ) (xs : List ℕ) → length xs < n → fetch n xs ≡ none
unfolding fetch
fetch_short zero xs h = absurd (omega arith)
fetch_short (suc n) [] h = refl
fetch_short (suc n) (x ∷ xs) h = rw (fetch_short n xs (omega arith))

pub length-fetch :
    (n : ℕ) (bs front rest : List ℕ)
    → fetch n bs ≡ some (front, rest)
    → (length front ≡ n) × (length bs ≡ n + length rest) × (front ++ rest ≡ bs)
unfolding fetch
length-fetch zero bs front rest h = ground arith
length-fetch (suc n) [] front rest h = cc
length-fetch (suc n) (b ∷ bs) front rest h = go (fetch n bs) (length-fetch n bs) h
  where
    go :
        (r : Option (List ℕ × List ℕ))
        → ((f g : List ℕ)
            → r ≡ some (f, g)
            → (length f ≡ n) × (length bs ≡ n + length g) × (f ++ g ≡ bs))
        → ◌>>=◌ {B = List ℕ × List ℕ} r (λ (f, g). some (b ∷ f, g)) ≡ some (front, rest)
        → (length front ≡ suc n)
          × (length (b ∷ bs) ≡ suc n + length rest)
          × (front ++ rest ≡ b ∷ bs)
    go none ih e = cc
    go (some (f, g)) ih e = ground (arith, ih f g refl)

-- The eight bytes of a word are read back as the word.
pub fetch_ull-le_bytes :
    (v : ℕ) (rest : List ℕ) → IsUll v → fetch_ull (le_bytes 8 v ++ rest) ≡ some (v, rest)
unfolding fetch_ull
fetch_ull-le_bytes v rest h =
    rw (fetch-append 8 (le_bytes 8 v) rest (length-le_bytes 8 v))
      (rw (le_value-le_bytes 8 v (omega arith)))

pub fetch_ull_short : (bs : List ℕ) → length bs < 8 → fetch_ull bs ≡ none
unfolding fetch_ull
fetch_ull_short bs h = rw (fetch_short 8 bs h)
