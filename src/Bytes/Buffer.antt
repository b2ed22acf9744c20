-- ===== src/Bytes/Buffer.antt =====
-- Successive writes into a buffer, each over the end of the one before.
use tek.Prelude.{
  ℕ, suc, ◌+◌, ◌≤◌, ◌<◌, ◌≡◌, ap, sym, ◌∙◌, none, some, List, [], ◌∷◌, ◌++◌, append_assoc, arith,
  le→leb, length, drop, take-append, length-append, length-drop,
}
use tek.Bytes.{write_at}

pub drop-append_add : (m : ℕ) (xs ys : List ℕ) → drop (length xs + m) (xs ++ ys) ≡ drop m ys
drop-append_add m [] ys = ap (λ k. drop k ys) (omega arith)
drop-append_add m (x ∷ xs) ys =
    let e : length (x ∷ xs) + m ≡ suc (length xs + m) = omega arith in
    rw e (drop-append_add m xs ys)

-- What is behind `text` after `keep ++ over` was written there, when only `keep` matters.
unfoldable pub behind : (keep over tail : List ℕ) → List ℕ
behind keep over tail = over ++ drop (length (keep ++ over)) tail

-- A write at the end of `text` leaves `text` and adds to it.
pub write_at-append :
    (offset : ℕ) (text keep over tail : List ℕ)
    → offset ≡ length text
    → length (keep ++ over) ≤ length tail
    → write_at offset (keep ++ over) (text ++ tail) ≡ some ((text ++ keep) ++ behind keep over tail)
unfolding write_at behind
write_at-append offset text keep over tail at fits =
    let inside : length text + length (keep ++ over) ≤ length (text ++ tail) =
      omega (arith, length-append text tail) in
    rw (at, le→leb _ _ inside, take-append, drop-append_add (length (keep ++ over)) text tail)
      (ap some (ap (λ l. text ++ l) (append_assoc keep over _) ∙ sym (append_assoc text keep _)))

pub length-behind :
    (keep over tail : List ℕ)
    → length (keep ++ over) ≤ length tail
    → length keep + length (behind keep over tail) ≡ length tail
unfolding behind
length-behind keep over tail fits = omega (
  arith,
  length-append keep over,
  length-append over (drop (length (keep ++ over)) tail),
  length-drop (length (keep ++ over)) tail,
)

-- A write that passes the end of the buffer.
pub write_at_overflow :
    (offset : ℕ) (bytes buf : List ℕ)
    → length buf < offset + length bytes
    → write_at offset bytes buf ≡ none
unfolding write_at
write_at_overflow offset bytes buf h = ground arith

-- A write at the start of the buffer.
pub write_at_start :
    (bytes buf : List ℕ)
    → length bytes ≤ length buf
    → write_at 0 bytes buf ≡ some (bytes ++ drop (length bytes) buf)
unfolding write_at
write_at_start bytes buf fits =
    let e : 0 + length bytes ≡ length bytes = omega arith in rw (e, le→leb _ _ fits)
