-- ===== src/Hash.antt =====
-- Projet/Hash/sha256.c: `sha256ToAscii`, and the digest as a parameter.
-- sha256_init, sha256_update, sha256_final and sha256_transform are Brad Conte's library, which the
-- program only calls: `Sha` is what the program relies on.
pub mod Ascii
use tek.Prelude.{ℕ, ◌+◌, ◌-◌, ◌/◌, ◌%◌, ◌<◌, ◌≡◌, List, [], ◌∷◌, ltb, if◌then◌else◌, length, All}
use tek.Bytes.{IsByte, until_nul}

abbrev pub sha256_block_size : ℕ
sha256_block_size = 32

-- The digest of a byte string: 32 bytes.
pub record Sha : Type 0 where
  pub digest : List ℕ → List ℕ
  pub length-digest : (s : List ℕ) → length (digest s) ≡ 32
  pub digest-IsByte : (s : List ℕ) → All IsByte (digest s)

-- A 32-byte array that holds a digest.
pub record IsHash (h : List ℕ) : Type 0 where
  pub size : length h ≡ 32
  pub bytes : All IsByte h

pub digest-IsHash : (sha : Sha) (s : List ℕ) → IsHash (sha.digest s)
digest-IsHash sha s = record { size = sha.length-digest s; bytes = sha.digest-IsByte s }

-- `sha256(txt, buf)` hashes the `strlen(txt)` bytes before the first NUL of the buffer.
unfoldable pub sha256 : Sha → List ℕ → List ℕ
sha256 sha txt = sha.digest (until_nul txt)

unfoldable pub hex_digit : ℕ → ℕ
hex_digit v = if ltb v 10 then v + b'0' else v - 10 + b'a'

-- The 2 * n characters that `sha256ToAscii` writes for n bytes.
unfoldable pub sha256_to_ascii : List ℕ → List ℕ
unfolding hex_digit
sha256_to_ascii [] = []
sha256_to_ascii (byte ∷ hash) = hex_digit (byte / 16) ∷ hex_digit (byte % 16) ∷ sha256_to_ascii hash
