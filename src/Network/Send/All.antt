-- ===== src/Network/Send/All.antt =====
-- Projet/Network/client.c: the first loop of `SendMessage`, which starts a thread for each client,
-- and the whole function; Projet/Network/network.c: a round of `SendOutGoinMessages`.
pub mod Every
use tek.Memory.{Heap}
use tek.Prelude.{
  ℕ, zero, suc, Bool, not, Option, none, some, List, [], ◌∷◌, ◌==◌, if◌then◌else◌, ◌>>=◌,
}
use tek.Message.{Message}
use tek.Network.Clients.{Address, Attempt, ClientInfo}
use tek.Network.Send.{SendResult, not_started, delivered, failed, send_message}
use tek.Network.Send.One.{exit_success, send_message_for_one_client}

-- What the system answers to the thread of one client: whether it can be started, and then what
-- `send_message_for_one_client` takes: how each address answers, and what the calls return.
pub record Turn : Type 0 where
  pub started : Bool
  pub reach : Address → Attempt
  pub fd : ℕ
  pub answers : List (Option ℕ)
  pub closes : Bool

-- The address that a thread is for, and what it has sent there.
pub record Delivery : Type 0 where
  pub to : Address
  pub sent : List ℕ

-- A thread that has ended: its `res`, and its delivery.
unfoldable pub run_turn : Turn → Address → Message → Option (SendResult × Delivery)
run_turn turn address message =
    if not turn.started then some (not_started, record { to = address; sent = [] }) else do
      (res, sent) ←
          send_message_for_one_client turn.reach address turn.fd turn.answers turn.closes message
      some (if res == exit_success then delivered else failed, record { to = address; sent = sent })

-- The first loop, on fuel, from a client on.
unfoldable pub start_loop :
    (fuel : ℕ)
    → Heap ClientInfo
    → (client : ℕ) → List Turn
    → Message
    → Option (List SendResult × List Delivery)
unfolding run_turn
start_loop zero h client turns message = none
start_loop (suc fuel) h client [] message = do
  c ← h.cells client
  if c.is_sentinel then some ([], []) else none
start_loop (suc fuel) h client (turn ∷ turns) message = do
  c ← h.cells client
  if c.is_sentinel then some ([], []) else do
    (res, sent) ← run_turn turn c.address message
    (tab, all) ← start_loop fuel h c.next turns message
    some (res ∷ tab, sent ∷ all)

-- What is left of the clients, and what each was sent.
unfoldable pub send_to_all :
    (fuel : ℕ)
    → Heap ClientInfo
    → (list : ℕ) → List Turn
    → Message
    → Option (Heap ClientInfo × List Delivery)
unfolding start_loop
send_to_all fuel h list turns message = do
  l ← h.cells list
  s ← h.cells l.sentinel
  (tab, all) ← start_loop fuel h s.next turns message
  h' ← send_message fuel h list tab
  some (h', all)

-- The part of `struct server` that the thread changes.
pub record Outbox : Type 0 where
  pub known_servers : Heap ClientInfo
  pub outgoing : List Message

-- One round of the loop: what is sent to each client.
unfoldable pub send_outgoing :
    (fuel : ℕ) → (list : ℕ) → List Turn → Outbox → Option (Outbox × List Delivery)
unfolding send_to_all
send_outgoing fuel list turns box = elim box.outgoing [
  | [] ↦ some (box, [])
  | message ∷ rest ↦ (do
    (h, all) ← send_to_all fuel box.known_servers list turns message
    some (record { known_servers = h; outgoing = rest }, all))
]

-- As many rounds as there are turns for; the status is not `EXITING` before.
unfoldable pub send_rounds :
    (fuel : ℕ) → (list : ℕ) → List (List Turn) → Outbox → Option (Outbox × List (List Delivery))
unfolding send_outgoing
send_rounds fuel list [] box = some (box, [])
send_rounds fuel list (turns ∷ rounds) box = do
  (box1, all) ← send_outgoing fuel list turns box
  (box2, more) ← send_rounds fuel list rounds box1
  some (box2, all ∷ more)
