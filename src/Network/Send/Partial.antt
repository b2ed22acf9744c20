-- ===== src/Network/Send/Partial.antt =====
-- `Send`, when the message goes out at once, and when it does not.
use tek.Prelude.{
  ℕ, ◌-◌, ◌≤◌, ◌<◌, ◌≡◌, refl, true, false, Option, none, some, List, [], ◌∷◌, arith, ltb,
  if◌then◌else◌, length, take, drop, take_all, length-drop, append-nil, ltb→lt, Bool-cases, inl,
  inr,
}
use tek.Bytes.{fetch}
use tek.Bytes.Words.{fetch-append, fetch_short}
use tek.Network.Send.{send_loop, send_all}

-- A call that would begin behind the start of the buffer hands over too much.
send_loop_outside :
    (buf sent : List ℕ) (reste : ℕ) (answer : Option ℕ) (answers : List (Option ℕ))
    → reste < length buf
    → send_loop (answer ∷ answers) (length buf) reste buf sent ≡ none
unfolding send_loop
send_loop_outside buf sent reste none answers less =
    rw
      (fetch_short (length buf) (drop (length buf - reste) buf)
        (omega (arith, length-drop (length buf - reste) buf)))
      refl
send_loop_outside buf sent reste (some r) answers less =
    rw
      (fetch_short (length buf) (drop (length buf - reste) buf)
        (omega (arith, length-drop (length buf - reste) buf)))
      refl

-- A call of `send` that takes all bytes ends `Send` with success. A call that takes only some makes
-- the next one hand over bytes from outside the buffer, whatever it answers.
pub send_all-whole :
    (buf : List ℕ) (r : ℕ) (answer : Option ℕ) (answers : List (Option ℕ))
    → 0 < r
    → r ≤ length buf
    → send_all (some r ∷ answer ∷ answers) (length buf) buf
      ≡ (if ltb r (length buf) then none else some (true, buf))
unfolding send_all send_loop
send_all-whole buf r answer answers some_r most =
    let n = length buf in
    let start : n - n ≡ 0 = omega arith in
    let first : fetch n buf ≡ some (buf, []) =
      rw (append-nil buf) at (fetch-append n buf [] refl) in
    elim (Bool-cases (ltb r n)) [
      | inl less ↦
          let outside =
            send_loop_outside buf (take r buf) (n - r) answer answers
              (omega (arith, ltb→lt r n less, some_r)) in
          rw (start, first, less, outside) refl
      | inr all ↦
          let whole : take r buf ≡ buf = take_all r buf (ground (arith, all)) in
          rw (start, first, all, whole) refl
    ]

-- If the first call of `send` fails, so does `Send`, and nothing was sent.
pub send_all_failed :
    (buf : List ℕ) (answers : List (Option ℕ))
    → send_all (none ∷ answers) (length buf) buf ≡ some (false, [])
unfolding send_all send_loop
send_all_failed buf answers =
    let start : length buf - length buf ≡ 0 = omega arith in
    let first : fetch (length buf) buf ≡ some (buf, []) =
      rw (append-nil buf) at (fetch-append (length buf) buf [] refl) in
    rw (start, first) refl
