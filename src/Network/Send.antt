-- ===== src/Network/Send.antt =====
-- Projet/Network/client.c: `Send`, and what `SendMessage` does with the clients once its threads have
-- sent the message.
pub mod Partial
pub mod Failed
pub mod Skipped
pub mod One
pub mod All
use tek.Memory.{Heap}
use tek.Prelude.{
  ℕ, zero, suc, ◌-◌, Bool, true, false, Option, none, some, List, [], ◌∷◌, ◌++◌, ltb, if◌then◌else◌,
  ◌>>=◌, take, drop,
}
use tek.Bytes.{fetch}
use tek.Network.Clients.{ClientInfo, remove_client}

-- The loop of `Send`: success or not, and the bytes that were sent. `answers` is what the calls of
-- `send` return, `none` standing for -1. Each call hands over `count` bytes.
unfoldable pub send_loop :
    List (Option ℕ) → (count reste : ℕ) → (buf sent : List ℕ) → Option (Bool × List ℕ)
send_loop [] count reste buf sent = none
send_loop (none ∷ answers) count reste buf sent = do
  (bytes, after) ← fetch count (drop (count - reste) buf)
  some (false, sent)
send_loop (some r ∷ answers) count reste buf sent = do
  (bytes, after) ← fetch count (drop (count - reste) buf)
  let sent' = sent ++ take r bytes
  let more = send_loop answers count (reste - r) buf sent'
  if ltb r reste then more else some (true, sent')

unfoldable pub send_all : List (Option ℕ) → (count : ℕ) → List ℕ → Option (Bool × List ℕ)
send_all answers count buf = send_loop answers count count buf []

-- `res` of a `struct msgInfo`, when its thread has ended: `ERROR`, `EXIT_SUCCESS`, `EXIT_FAILURE`.
pub data SendResult : Type 0 where
  not_started delivered failed : SendResult

abbrev pub is_failed : SendResult → Bool
is_failed not_started = false
is_failed delivered = false
is_failed failed = true

-- The second loop of `SendMessage`, on fuel: from a client on, and from an entry of `tab` on.
unfoldable pub sweep : (fuel : ℕ) → Heap ClientInfo → ℕ → List SendResult → Option (Heap ClientInfo)
sweep zero h client tab = none
sweep (suc fuel) h client [] = do c ← h.cells client; if c.is_sentinel then some h else none
sweep (suc fuel) h client (res ∷ tab) = do
  c ← h.cells client
  if c.is_sentinel
      then some h
      else if is_failed res
      then (do
        (removed, h') ← remove_client h client
        n ← h'.cells c.next
        sweep fuel h' n.next tab)
      else sweep fuel h c.next tab

-- `tab` is what the threads make of the clients, in the order of the list.
unfoldable pub send_message :
    (fuel : ℕ) → Heap ClientInfo → ℕ → List SendResult → Option (Heap ClientInfo)
send_message fuel h list tab = do l ← h.cells list; s ← h.cells l.sentinel; sweep fuel h s.next tab
