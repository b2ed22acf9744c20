-- ===== src/Mining/Digits.antt =====
-- `len_of_proof` against the digits that `sprintf` prints.
use tek.Prelude.{
  ℕ, zero, suc, ◌+◌, ◌/◌, ◌%◌, ◌^◌, ◌≤◌, ◌<◌, ◌≡◌, refl, List, [], ◌∷◌, arith, length,
}
use tek.Bytes.{IsText, IsUll, decimal_loop, decimal}
use tek.Mining.{len_loop, len_of_proof}

len_loop-zero : (fuel len : ℕ) → len_loop fuel 0 len ≡ len
unfolding len_loop
len_loop-zero zero len = refl
len_loop-zero (suc fuel) len = refl

len_loop-decimal_loop :
    (fuel n len : ℕ) (acc : List ℕ)
    → 0 < n
    → n < 10 ^ fuel
    → length acc ≡ len
    → length (decimal_loop fuel n acc) ≡ len_loop fuel n len
unfolding len_loop decimal_loop
len_loop-decimal_loop zero n len acc pos fits e = absurd (omega arith)
len_loop-decimal_loop (suc fuel) n len acc pos fits e = ground (
  arith,
  len_loop-zero fuel (len + 1),
  len_loop-decimal_loop fuel (n / 10) (len + 1) ((n % 10 + 48) ∷ acc),
)

-- For a 64-bit proof other than 0, `len_of_proof` is the number of characters that `%llu` prints.
pub len_of_proof-decimal :
    (proof : ℕ) → 0 < proof → IsUll proof → length (decimal proof) ≡ len_of_proof proof
unfolding len_of_proof decimal
len_of_proof-decimal proof pos fits = len_loop-decimal_loop 20 proof 0 [] pos (omega arith) refl

pub len_of_proof-zero : len_of_proof 0 ≡ 0
unfolding len_of_proof
len_of_proof-zero = refl

decimal_loop-IsText : (fuel n : ℕ) (acc : List ℕ) → IsText acc → IsText (decimal_loop fuel n acc)
unfolding decimal_loop
decimal_loop-IsText zero n acc h = h
decimal_loop-IsText (suc fuel) n acc h =
    ground (arith, decimal_loop-IsText fuel (n / 10) ((n % 10 + 48) ∷ acc) (omega arith, h))

pub decimal-IsText : (n : ℕ) → IsText (decimal n)
unfolding decimal
decimal-IsText n = decimal_loop-IsText 20 n [] tt

length-decimal_loop :
    (fuel n : ℕ) (acc : List ℕ)
    → (length acc ≤ length (decimal_loop fuel n acc))
      × (length (decimal_loop fuel n acc) ≤ length acc + fuel)
unfolding decimal_loop
length-decimal_loop zero n acc = omega arith
length-decimal_loop (suc fuel) n acc =
    ground (arith, length-decimal_loop fuel (n / 10) ((n % 10 + 48) ∷ acc))

-- Between 1 and 20 characters.
pub length-decimal : (n : ℕ) → (1 ≤ length (decimal n)) × (length (decimal n) ≤ 20)
unfolding decimal decimal_loop
length-decimal n = ground (arith, length-decimal_loop 19 (n / 10) ((n % 10 + 48) ∷ []))

decimal_loop_fits :
    (fuel k n : ℕ) (acc : List ℕ)
    → n < 10 ^ suc k
    → length (decimal_loop fuel n acc) ≤ length acc + suc k
unfolding decimal_loop
decimal_loop_fits zero k n acc h = omega arith
decimal_loop_fits (suc fuel) zero n acc h = ground arith
decimal_loop_fits (suc fuel) (suc k) n acc h =
    ground (arith, decimal_loop_fits fuel k (n / 10) ((n % 10 + 48) ∷ acc) (omega arith))

pub decimal_fits : (k n : ℕ) → n < 10 ^ suc k → length (decimal n) ≤ suc k
unfolding decimal
decimal_fits k n h = omega (arith, decimal_loop_fits 20 k n [] h)

-- For 0 it is one less.
pub len_of_proof_near :
    (proof : ℕ)
    → IsUll proof
    → (len_of_proof proof ≤ length (decimal proof))
      × (length (decimal proof) ≤ len_of_proof proof + 1)
len_of_proof_near zero h = unfold len_of_proof len_loop decimal decimal_loop in omega arith
len_of_proof_near (suc n) h = omega (arith, len_of_proof-decimal (suc n) (omega arith) h)
