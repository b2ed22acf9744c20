-- ===== src/Bytes.antt =====
-- Memory as the C code sees it on amd64: bytes, little-endian words, C strings and buffers.
-- A `char *` is the list of the bytes before its first NUL. `bin + k` is `drop k bin`.
pub mod Words
pub mod Text
pub mod Buffer
pub mod Numerals
use tek.Prelude.{
  ℕ, zero, suc, ◌+◌, ◌-◌, ◌*◌, ◌/◌, ◌%◌, ◌^◌, ◌<◌, Bool, true, false, Option, none, some, List, [],
  ◌∷◌, ◌++◌, ltb, leb, ◌==◌, if◌then◌else◌, ◌>>=◌, length, take, drop, replicate, All,
}

abbrev pub IsUll : ℕ → Type 0
IsUll v = v < 2 ^ 64

abbrev pub IsByte : ℕ → Type 0
IsByte b = b < 256

-- A C string: bytes other than NUL.
abbrev pub IsText : List ℕ → Type 0
IsText = All (λ b. (0 < b) × (b < 256))

-- The `n` low bytes of a word, lowest first: what `memcpy` takes from it.
unfoldable pub le_bytes : ℕ → ℕ → List ℕ
le_bytes zero v = []
le_bytes (suc n) v = (v % 256) ∷ le_bytes n (v / 256)

unfoldable pub le_value : List ℕ → ℕ
le_value [] = 0
le_value (b ∷ bs) = b + 256 * le_value bs

-- `memcpy(dst, src, n)` out of an object: the bytes, and what follows them.
unfoldable pub fetch : ℕ → List ℕ → Option (List ℕ × List ℕ)
fetch zero bs = some ([], bs)
fetch (suc n) [] = none
fetch (suc n) (b ∷ bs) = do (front, rest) ← fetch n bs; some (b ∷ front, rest)

-- `memcpy(&word, src, sizeof(ull_t))`.
unfoldable pub fetch_ull : List ℕ → Option (ℕ × List ℕ)
unfolding fetch le_value
fetch_ull bs = do (word, rest) ← fetch 8 bs; some (le_value word, rest)

-- The C string at the start of a zeroed buffer into which these bytes were copied.
unfoldable pub until_nul : List ℕ → List ℕ
until_nul [] = []
until_nul (b ∷ bs) = if b == 0 then [] else b ∷ until_nul bs

-- The C string at the start of an object, as `strlen` finds it; an object without a NUL is left.
unfoldable pub c_string : List ℕ → Option (List ℕ)
c_string [] = none
c_string (b ∷ bs) = let rest = c_string bs in if b == 0 then some [] else do s ← rest; some (b ∷ s)

-- `memcmp(p, q, n) == 0`. It reads byte by byte up to the first difference; C promises only that it
-- reads no more than n bytes of each object.
unfoldable pub memcmp : ℕ → List ℕ → List ℕ → Option Bool
memcmp zero p q = some true
memcmp (suc n) [] q = none
memcmp (suc n) (x ∷ p) [] = none
memcmp (suc n) (x ∷ p) (y ∷ q) = let rest = memcmp n p q in if x == y then rest else some false

-- The object that holds a C string.
abbrev pub block : List ℕ → List ℕ
block s = s ++ 0 ∷ []

-- `memcpy(buf + offset, bytes, n)` into an object.
unfoldable pub write_at : ℕ → List ℕ → List ℕ → Option (List ℕ)
write_at offset bytes buf =
    if leb (offset + length bytes) (length buf)
    then some (take offset buf ++ (bytes ++ drop (offset + length bytes) buf))
    else none

-- `%llu`: a 64-bit number has at most 20 digits.
unfoldable pub decimal_loop : ℕ → ℕ → List ℕ → List ℕ
decimal_loop zero n acc = acc
decimal_loop (suc fuel) n acc =
    let acc' = (n % 10 + 48) ∷ acc in
    let more = decimal_loop fuel (n / 10) acc' in if ltb n 10 then acc' else more

unfoldable pub decimal : ℕ → List ℕ
unfolding decimal_loop
decimal n = decimal_loop 20 n []

-- The flags `0w` of a format, `%0wllu`.
unfoldable pub zero_pad : ℕ → List ℕ → List ℕ
zero_pad w s = replicate (w - length s) b'0' ++ s

-- A `time_t` is its bit pattern, below 2 ^ 64; it is negative from 2 ^ 63 on.
unfoldable pub time_lt : ℕ → ℕ → Bool
time_lt a b = ltb ((a + 2 ^ 63) % 2 ^ 64) ((b + 2 ^ 63) % 2 ^ 64)

-- `%0wld`.
unfoldable pub signed_pad : ℕ → ℕ → List ℕ
unfolding decimal zero_pad
signed_pad w t =
    if ltb t (2 ^ 63)
    then zero_pad w (decimal t)
    else b'-' ∷ zero_pad (w - 1) (decimal (2 ^ 64 - t))
