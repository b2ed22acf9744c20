-- ===== src/Api/Resend.antt =====
-- Projet/API/API.c: `resend`.
pub mod Whole
use tek.Prelude.{
  ℕ, zero, suc, ◌+◌, ◌-◌, Option, none, some, List, [], ◌∷◌, ◌++◌, ltb, if◌then◌else◌, ◌>>=◌, take,
  drop,
}
use tek.Bytes.{fetch}

-- The loop, with what was sent before. `answers` is what the calls of `send` return, `none` standing
-- for -1, which is added to `send1` like any other answer.
unfoldable pub resend_loop :
    List (Option ℕ) → (count send1 : ℕ) → (buf sent : List ℕ) → Option (List ℕ)
resend_loop [] count send1 buf sent = if ltb send1 count then none else some sent
resend_loop (none ∷ answers) count zero buf sent = if ltb 0 count then none else some sent
resend_loop (none ∷ answers) count (suc send1) buf sent =
    let more = resend_loop answers count send1 buf sent in
    if ltb (suc send1) count
    then (do (bytes, after) ← fetch (count - suc send1) (drop (suc send1) buf); more)
    else some sent
resend_loop (some r ∷ answers) count send1 buf sent =
    if ltb send1 count
    then (do
      (bytes, after) ← fetch (count - send1) (drop send1 buf)
      resend_loop answers count (send1 + r) buf (sent ++ take r bytes))
    else some sent

-- What is sent. When the first call fails, `err` ends the program.
unfoldable pub resend : List (Option ℕ) → (count : ℕ) → List ℕ → Option (List ℕ)
resend [] count buf = none
resend (none ∷ answers) count buf = none
resend (some r ∷ answers) count buf = do
  (bytes, after) ← fetch count buf
  resend_loop answers count r buf (take r bytes)
