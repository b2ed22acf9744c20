-- ===== src/Hash/Ascii.antt =====
-- The hexadecimal text of a digest: its length, its characters, and no two digests share one.
use tek.Prelude.{ℕ, ◌*◌, ◌/◌, ◌%◌, ◌<◌, ◌≡◌, refl, List, [], ◌∷◌, arith, length, All}
use tek.Bytes.{IsByte, IsText}
use tek.Hash.{hex_digit, sha256_to_ascii}

pub length-sha256_to_ascii : (h : List ℕ) → length (sha256_to_ascii h) ≡ 2 * length h
unfolding sha256_to_ascii
length-sha256_to_ascii [] = omega arith
length-sha256_to_ascii (b ∷ h) = omega (arith, length-sha256_to_ascii h)

hex_digit-text : (v : ℕ) → v < 16 → (0 < hex_digit v) × (hex_digit v < 256)
unfolding hex_digit
hex_digit-text v h = ground arith

pub sha256_to_ascii-IsText : (h : List ℕ) → All IsByte h → IsText (sha256_to_ascii h)
unfolding sha256_to_ascii
sha256_to_ascii-IsText [] p = tt
sha256_to_ascii-IsText (b ∷ h) p = (
  hex_digit-text (b / 16) (omega arith),
  (hex_digit-text (b % 16) (omega arith), sha256_to_ascii-IsText h p.1),
)

hex_digit-injective : (v w : ℕ) → v < 16 → w < 16 → hex_digit v ≡ hex_digit w → v ≡ w
unfolding hex_digit
hex_digit-injective v w hv hw e = ground arith

-- Two byte arrays with the same text are the same array.
pub sha256_to_ascii-injective :
    (g h : List ℕ) → All IsByte g → All IsByte h → sha256_to_ascii g ≡ sha256_to_ascii h → g ≡ h
unfolding sha256_to_ascii
sha256_to_ascii-injective [] [] p q e = refl
sha256_to_ascii-injective [] (c ∷ h) p q e = cc
sha256_to_ascii-injective (b ∷ g) [] p q e = cc
sha256_to_ascii-injective (b ∷ g) (c ∷ h) p q e = ground (
  arith,
  hex_digit-injective (b / 16) (c / 16),
  hex_digit-injective (b % 16) (c % 16),
  sha256_to_ascii-injective g h p.1 q.1,
)
