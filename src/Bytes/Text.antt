-- ===== src/Bytes/Text.antt =====
-- C strings: their ends, their comparison, and numbers in decimal.
use tek.Prelude.{
  ℕ, zero, suc, ◌+◌, ◌≤◌, ◌≡◌, refl, ◌↔◌, Bool, true, false, some, List, [], ◌∷◌, ◌++◌, arith, ltb,
  ◌==◌, if◌then◌else◌, length, take,
}
use tek.Bytes.{IsText, c_string, until_nul, memcmp, block}

pub until_nul-append : (s rest : List ℕ) → IsText s → until_nul (s ++ 0 ∷ rest) ≡ s
unfolding until_nul
until_nul-append [] rest h = refl
until_nul-append (b ∷ s) rest h = ground (arith, until_nul-append s rest)

pub until_nul-text : (s : List ℕ) → IsText s → until_nul s ≡ s
unfolding until_nul
until_nul-text [] h = refl
until_nul-text (b ∷ s) h = ground (arith, until_nul-text s)

pub length-until_nul : (s : List ℕ) → length (until_nul s) ≤ length s
unfolding until_nul
length-until_nul [] = omega arith
length-until_nul (b ∷ s) = ground (arith, length-until_nul s)

-- Equality of strings, and being the beginning of a string.
unfoldable pub text_eq : List ℕ → List ℕ → Bool
text_eq [] [] = true
text_eq [] (y ∷ t) = false
text_eq (x ∷ s) [] = false
text_eq (x ∷ s) (y ∷ t) = let rest = text_eq s t in if x == y then rest else false

unfoldable pub is_prefix : List ℕ → List ℕ → Bool
is_prefix [] t = true
is_prefix (x ∷ s) [] = false
is_prefix (x ∷ s) (y ∷ t) = let rest = is_prefix s t in if x == y then rest else false

pub text_eq_refl : (s : List ℕ) → text_eq s s ≡ true
unfolding text_eq
text_eq_refl [] = refl
text_eq_refl (x ∷ s) = ground (arith, text_eq_refl s)

pub text_eq_comm : (s t : List ℕ) → text_eq s t ≡ text_eq t s
unfolding text_eq
text_eq_comm [] [] = refl
text_eq_comm [] (y ∷ t) = refl
text_eq_comm (x ∷ s) [] = refl
text_eq_comm (x ∷ s) (y ∷ t) = ground (arith, text_eq_comm s t)

pub text_eq→eq : (s t : List ℕ) → text_eq s t ≡ true → s ≡ t
unfolding text_eq
text_eq→eq [] [] h = refl
text_eq→eq [] (y ∷ t) h = cc
text_eq→eq (x ∷ s) [] h = cc
text_eq→eq (x ∷ s) (y ∷ t) h = ground (arith, text_eq→eq s t)

pub text_eq_iff : (s t : List ℕ) → (text_eq s t ≡ true) ↔ (s ≡ t)
text_eq_iff s t = (text_eq→eq s t, λ e. rw e (text_eq_refl t))

pub is_prefix-append : (s t : List ℕ) → is_prefix s (s ++ t) ≡ true
unfolding is_prefix
is_prefix-append [] t = refl
is_prefix-append (x ∷ s) t = ground (arith, is_prefix-append s t)

-- `memcmp(s, t, strlen(s) + 1)` stays inside both strings and compares them.
pub memcmp-eq :
    (s t : List ℕ)
    → IsText s
    → IsText t
    → memcmp (length s + 1) (block s) (block t) ≡ some (text_eq s t)
unfolding memcmp text_eq
memcmp-eq [] [] hs ht = ground arith
memcmp-eq [] (y ∷ t) hs ht = ground arith
memcmp-eq (x ∷ s) [] hs ht = ground arith
memcmp-eq (x ∷ s) (y ∷ t) hs ht = ground (arith, memcmp-eq s t hs.1 ht.1)

-- `memcmp(s, t, strlen(s))` stays inside both strings: `s` begins `t`.
pub memcmp-prefix :
    (s t : List ℕ)
    → IsText s
    → IsText t
    → memcmp (length s) (block s) (block t) ≡ some (is_prefix s t)
unfolding memcmp is_prefix
memcmp-prefix [] t hs ht = refl
memcmp-prefix (x ∷ s) [] hs ht = ground arith
memcmp-prefix (x ∷ s) (y ∷ t) hs ht = ground (arith, memcmp-prefix s t hs.1 ht.1)

-- The longer length of the two serves as well.
pub memcmp-max :
    (s t : List ℕ)
    → IsText s
    → IsText t
    → memcmp (if ltb (length s) (length t) then length t else length s) (block s) (block t)
      ≡ some (text_eq s t)
unfolding memcmp text_eq
memcmp-max [] [] hs ht = refl
memcmp-max [] (y ∷ t) hs ht = ground arith
memcmp-max (x ∷ s) [] hs ht = ground arith
memcmp-max (x ∷ s) (y ∷ t) hs ht = ground (arith, memcmp-max s t hs.1 ht.1)

-- Byte arrays of one length.
pub memcmp-array :
    (n : ℕ) (p q : List ℕ) → length p ≡ n → length q ≡ n → memcmp n p q ≡ some (text_eq p q)
unfolding memcmp text_eq
memcmp-array zero [] [] hp hq = refl
memcmp-array zero [] (y ∷ q) hp hq = absurd (omega arith)
memcmp-array zero (x ∷ p) q hp hq = absurd (omega arith)
memcmp-array (suc n) [] q hp hq = absurd (omega arith)
memcmp-array (suc n) (x ∷ p) [] hp hq = absurd (omega arith)
memcmp-array (suc n) (x ∷ p) (y ∷ q) hp hq = ground (arith, memcmp-array n p q)

pub c_string-append : (s rest : List ℕ) → IsText s → c_string (s ++ 0 ∷ rest) ≡ some s
unfolding c_string
c_string-append [] rest h = refl
c_string-append (b ∷ s) rest h = rw (c_string-append s rest h.1) (ground (arith, h.0))

-- Strings of one length are compared without their ends.
pub memcmp-length :
    (s t : List ℕ)
    → length s ≡ length t
    → memcmp (length s) (block s) (block t) ≡ some (text_eq s t)
unfolding memcmp text_eq
memcmp-length [] [] e = refl
memcmp-length [] (y ∷ t) e = absurd (omega arith)
memcmp-length (x ∷ s) [] e = absurd (omega arith)
memcmp-length (x ∷ s) (y ∷ t) e = ground (arith, memcmp-length s t (omega arith))

pub text_eq-length : (s t : List ℕ) → text_eq s t ≡ true → length s ≡ length t
text_eq-length s t h = rw (text_eq→eq s t h)

-- Equal beginnings of arrays that are long enough.
pub memcmp-take :
    (n : ℕ) (p q : List ℕ)
    → n ≤ length p
    → n ≤ length q
    → memcmp n p q ≡ some (text_eq (take n p) (take n q))
unfolding memcmp text_eq
memcmp-take zero p q hp hq = refl
memcmp-take (suc n) [] q hp hq = absurd (omega arith)
memcmp-take (suc n) (x ∷ p) [] hp hq = absurd (omega arith)
memcmp-take (suc n) (x ∷ p) (y ∷ q) hp hq =
    ground (arith, memcmp-take n p q (omega arith) (omega arith))
