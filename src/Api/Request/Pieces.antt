-- ===== src/Api/Request/Pieces.antt =====
-- The last piece of a request.
use tek.Prelude.{
  ℕ, ◌-◌, ◌<◌, ◌≡◌, refl, ap, Bool, false, some, List, ◌∷◌, ◌++◌, arith, ltb, lt→ltb, length, drop,
  length-append, drop-append, ◌==◌, ◌&&◌, Option,
}
use tek.Bytes.{IsText, block}
use tek.Bytes.Text.{until_nul-text}
use tek.Api.Request.{buffer_size, blank_line, request_text, memcmp_gt, goes_on, read_request}

last_four :
    (front last : List ℕ)
    → length last ≡ 4
    → drop (length (front ++ last) - 4) (front ++ last) ≡ last
last_four front last four =
    let size : length (front ++ last) - 4 ≡ length front =
      omega (arith, length-append front last, four) in
    rw (size, drop-append front last) refl

goes_on-last :
    (g : List ℕ → Bool) (front last : List ℕ) (greater : Bool)
    → length last ≡ 4
    → memcmp_gt 5 (block last) (block blank_line) ≡ some greater
    → goes_on g (front ++ last) ≡ some (greater && g last)
unfolding goes_on
goes_on-last g front last greater four e =
    let long : ltb (length (front ++ last)) 4 ≡ false =
      ground (arith, length-append front last, four) in
    rw (long, last_four front last four, e) refl

-- A request with an empty line at its end is complete.
goes_on-blank_line :
    (g : List ℕ → Bool) (head : List ℕ) → goes_on g (head ++ blank_line) ≡ some false
unfolding memcmp_gt
goes_on-blank_line g head = goes_on-last g head blank_line false refl refl

request_text-text :
    (bytes : List ℕ) → IsText bytes → length bytes < buffer_size → request_text bytes ≡ some bytes
unfolding request_text
request_text-text bytes ok fits = rw (lt→ltb _ _ fits) (ap some (until_nul-text bytes ok))

module _ (last : List ℕ) (text : IsText last) (fits : length last < buffer_size)
    (some_last : 0 < length last) (reads : List (Option (List ℕ))) where
  -- The last read.
  pub read_request-end :
      (g : List ℕ → Bool) (full head : List ℕ)
      → full ++ last ≡ head ++ blank_line
      → read_request g (some last ∷ reads) full ≡ some (some (full ++ last))
  unfolding read_request
  read_request-end g full head e =
      let more : (length last == 0) ≡ false = ground (arith, some_last) in
      let stop : goes_on g (full ++ last) ≡ some false = rw e (goes_on-blank_line g head) in
      rw (request_text-text last text fits, more, stop) refl
