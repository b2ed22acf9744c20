-- ===== src/Bytes/Numerals.antt =====
-- `atoi` and `atol`.
use tek.Prelude.{
  ℕ, ◌+◌, ◌-◌, ◌*◌, ◌^◌, ◌&&◌, ◌||◌, Option, none, some, List, [], ◌∷◌, ◌==◌, ltb, leb,
  if◌then◌else◌,
}

unfoldable pub digits_value : List ℕ → (value : ℕ) → ℕ
digits_value [] value = value
digits_value (c ∷ cs) value =
    let rest = digits_value cs (value * 10 + (c - 48)) in
    if leb 48 c && leb c 57 then rest else value

-- A sign and digits, as the bit pattern of a number from `- half` to `half - 1`. Another value is
-- undefined.
unfoldable pub signed_value : (half : ℕ) → List ℕ → Option ℕ
signed_value half [] = some 0
signed_value half (c ∷ cs) =
    if c == b'-'
    then (let v = digits_value cs 0 in
        if v == 0 then some 0 else if leb v half then some (2 * half - v) else none)
    else (let v = digits_value (if c == b'+' then cs else c ∷ cs) 0 in
        if ltb v half then some v else none)

-- White space goes first.
unfoldable pub parse_number : (half : ℕ) → List ℕ → Option ℕ
parse_number half [] = some 0
parse_number half (c ∷ cs) =
    let rest = parse_number half cs in
    if c == 32 || (leb 9 c && leb c 13) then rest else signed_value half (c ∷ cs)

abbrev pub atoi : List ℕ → Option ℕ
atoi = parse_number (2 ^ 31)

abbrev pub atol : List ℕ → Option ℕ
atol = parse_number (2 ^ 63)
