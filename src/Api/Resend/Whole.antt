-- ===== src/Api/Resend/Whole.antt =====
-- What `resend` sends, when no call fails and when one does.
use tek.Prelude.{
  ℕ, zero, suc, ◌+◌, ◌-◌, ◌≤◌, ◌<◌, ◌≡◌, refl, ap, ◌∙◌, true, Option, none, some, List, [], ◌∷◌,
  ◌++◌, arith, ltb, lt→ltb, length, take, drop, map, append-nil, append_assoc, length-append,
  length-take, length-drop, take-append-drop, take_all, drop-append,
}
use tek.Bytes.{fetch}
use tek.Bytes.Words.{fetch-append}
use tek.Api.Resend.{resend_loop, resend}

abbrev pub total : List ℕ → ℕ
total [] = 0
total (r ∷ rs) = r + total rs

-- Nothing is sent once `send1` has reached `count`.
resend_loop_done :
    (answers : List (Option ℕ)) (count send1 : ℕ) (buf sent : List ℕ)
    → count ≤ send1
    → resend_loop answers count send1 buf sent ≡ some sent
unfolding resend_loop
resend_loop_done [] count send1 buf sent h = ground arith
resend_loop_done (none ∷ answers) count zero buf sent h = ground arith
resend_loop_done (none ∷ answers) count (suc send1) buf sent h = ground arith
resend_loop_done (some r ∷ answers) count send1 buf sent h = ground arith

-- A call hands over what is left.
fetch_rest :
    (front tail : List ℕ)
    → fetch (length (front ++ tail) - length front) (drop (length front) (front ++ tail))
      ≡ some (tail, [])
fetch_rest front tail =
    let size : length (front ++ tail) - length front ≡ length tail =
      omega (arith, length-append front tail) in
    let own = rw (append-nil tail) at (fetch-append (length tail) tail [] refl) in
    rw (size, drop-append front tail) own

fetch_left :
    (n : ℕ) (buf : List ℕ)
    → n ≤ length buf
    → fetch (length buf - n) (drop n buf) ≡ some (drop n buf, [])
fetch_left n buf h =
    let size : length buf - n ≡ length (drop n buf) = omega (arith, length-drop n buf) in
    rw size
      (rw (append-nil (drop n buf)) at (fetch-append (length (drop n buf)) (drop n buf) [] refl))

-- Answers that add up to what is left send it.
resend_loop-rest :
    (rs : List ℕ) (rest : List (Option ℕ)) (front tail sent : List ℕ)
    → total rs ≡ length tail
    → resend_loop (map some rs ++ rest) (length (front ++ tail)) (length front) (front ++ tail) sent
      ≡ some (sent ++ tail)
unfolding resend_loop
resend_loop-rest [] rest front [] sent e =
    rw (append-nil sent)
      (resend_loop_done rest _ _ (front ++ []) sent (omega (arith, length-append front [])))
resend_loop-rest [] rest front (b ∷ tail) sent e = absurd (omega arith)
resend_loop-rest (r ∷ rs) rest front [] sent e = rw (append-nil sent) (
    resend_loop_done (some r ∷ (map some rs ++ rest)) _ _ (front ++ []) sent
      (omega (arith, length-append front [])))
resend_loop-rest (r ∷ rs) rest front (b ∷ tail) sent e =
    let left = b ∷ tail in
    let buf = front ++ left in
    let front' = front ++ take r left in
    let parts : front' ++ drop r left ≡ buf =
      append_assoc front (take r left) (drop r left)
      ∙ ap (λ t. front ++ t) (take-append-drop r left) in
    let at : length front' ≡ length front + r =
      omega (arith, length-append front (take r left), length-take r left, e) in
    let next =
      resend_loop-rest rs rest front' (drop r left) (sent ++ take r left)
        (omega (arith, length-drop r left, e)) in
    let test : ltb (length front) (length buf) ≡ true =
      lt→ltb _ _ (omega (arith, length-append front left)) in
    rw (test, fetch_rest front left)
      (rw (parts, at) at next
        ∙ ap some (
            append_assoc sent (take r left) (drop r left)
            ∙ ap (λ t. sent ++ t) (take-append-drop r left)))

-- When the calls of `send` take all bytes together, each what it takes of those that are left:
-- `resend` stays inside the buffer and sends each byte once, in order.
pub resend-whole :
    (r : ℕ) (rs : List ℕ) (rest : List (Option ℕ)) (buf : List ℕ)
    → total (r ∷ rs) ≡ length buf
    → resend (some r ∷ (map some rs ++ rest)) (length buf) buf ≡ some buf
unfolding resend
resend-whole r rs rest buf e =
    let front = take r buf in
    let split : front ++ drop r buf ≡ buf = take-append-drop r buf in
    let own : fetch (length buf) buf ≡ some (buf, []) =
      rw (append-nil buf) at (fetch-append (length buf) buf [] refl) in
    let at : length front ≡ r = omega (arith, length-take r buf, e) in
    let sent =
      resend_loop-rest rs rest front (drop r buf) front (omega (arith, length-drop r buf, e)) in
    rw own (rw (split, at) at sent)

-- When the first call of `send` takes some of the bytes, but not all, the second fails, and the third
-- takes all that it is handed: the last byte that the first one took is sent again.
pub resend-repeats :
    (r : ℕ) (rest : List (Option ℕ)) (buf : List ℕ)
    → 0 < r
    → r < length buf
    → resend (some r ∷ none ∷ some (length buf - r + 1) ∷ rest) (length buf) buf
      ≡ some (take r buf ++ drop (r - 1) buf)
unfolding resend resend_loop
resend-repeats zero rest buf some_r short = absurd (omega arith)
resend-repeats (suc r) rest buf some_r short =
    let own = fetch_left 0 buf (omega arith) in
    let second = fetch_left (suc r) buf (omega arith) in
    let third = fetch_left r buf (omega arith) in
    let all : take (length buf - suc r + 1) (drop r buf) ≡ drop r buf =
      take_all _ _ (omega (arith, length-drop r buf)) in
    let n : length buf - 0 ≡ length buf = omega arith in
    let e : suc r - 1 ≡ r = omega arith in
    let done =
      resend_loop_done rest (length buf) (r + (length buf - suc r + 1)) buf
        (take (suc r) buf ++ drop r buf) (omega (arith, short)) in
    rw (rw n at own, lt→ltb _ _ short, second, e)
      (rw (lt→ltb r (length buf) (omega arith), third, all) done)
