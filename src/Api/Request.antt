-- ===== src/Api/Request.antt =====
-- Projet/API/API.c: the first part of `worker`, which reads a request with `string_append`.
pub mod Pieces
use tek.Prelude.{
  ℕ, zero, suc, ◌-◌, Bool, true, false, ◌&&◌, Option, none, some, List, [], ◌∷◌, ◌++◌, ltb, ◌==◌,
  if◌then◌else◌, ◌>>=◌, length, drop,
}
use tek.Bytes.{block, until_nul}

abbrev pub buffer_size : ℕ
buffer_size = 500

abbrev pub blank_line : List ℕ
blank_line = 13 ∷ 10 ∷ 13 ∷ 10 ∷ []

abbrev pub string_append : (full_request request : List ℕ) → List ℕ
string_append full_request request = full_request ++ request

-- The string in `request` once these bytes were read and a NUL was put behind them.
unfoldable pub request_text : List ℕ → Option (List ℕ)
request_text bytes = if ltb (length bytes) buffer_size then some (until_nul bytes) else none

-- `memcmp(p, q, n) > 0`.
unfoldable pub memcmp_gt : ℕ → List ℕ → List ℕ → Option Bool
memcmp_gt zero p q = some false
memcmp_gt (suc n) [] q = none
memcmp_gt (suc n) (x ∷ p) [] = none
memcmp_gt (suc n) (x ∷ p) (y ∷ q) =
    let rest = memcmp_gt n p q in if x == y then rest else some (ltb y x)

-- The second condition of the loop. Of a comparison only the sign is specified: `gives_one` says
-- whether it answers 1 when it finds these four characters greater.
unfoldable pub goes_on : (gives_one : List ℕ → Bool) → (full_request : List ℕ) → Option Bool
goes_on gives_one full_request = if ltb (length full_request) 4 then none else do
  let last = drop (length full_request - 4) full_request
  greater ← memcmp_gt 5 (block last) (block blank_line)
  some (greater && gives_one last)

-- The loop. `reads` is what the calls of `read` deliver, `none` standing for -1, after which the
-- worker gives up: `some none`.
unfoldable pub read_request :
    (gives_one : List ℕ → Bool)
    → (reads : List (Option (List ℕ))) → (full_request : List ℕ) → Option (Option (List ℕ))
read_request gives_one [] full_request = none
read_request gives_one (none ∷ reads) full_request = some none
read_request gives_one (some bytes ∷ reads) full_request = do
  request ← request_text bytes
  let full' = string_append full_request request
  let rest = read_request gives_one reads full'
  if length bytes == 0
      then some (some full')
      else do more ← goes_on gives_one full'; if more then rest else some (some full')
