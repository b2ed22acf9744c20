-- ===== src/Network/Send/All/Every.antt =====
-- All clients get all messages.
use tek.Memory.{Heap}
use tek.Prelude.{
  ℕ, zero, suc, ◌+◌, ◌<◌, ◌≡◌, refl, true, false, Option, some, List, [], ◌∷◌, ◌++◌, ◌==◌, arith,
  All, length, map, replicate,
}
use tek.Message.{Message}
use tek.Message.Binary.{IsMessage}
use tek.Network.Clients.{Address, ClientInfo}
use tek.Network.Clients.Ring.{Member, IsHead, IsClients, Seg, first_of}
use tek.Network.Receive.{header_size}
use tek.Network.Receive.Whole.{header_of}
use tek.Network.Send.{delivered}
use tek.Network.Send.Failed.{send_message-delivered}
use tek.Network.Send.One.{exit_failure, reached, send_message_for_one_client-whole}
use tek.Network.Send.All.{
  Delivery, Turn, run_turn, start_loop, send_to_all, send_outgoing, send_rounds,
}

-- The thread is started, the address is reached on a socket other than 1, and takes all bytes at once.
pub record Works (m : Message) (address : Address) (turn : Turn) : Type 0 where
  pub starts : turn.started ≡ true
  pub up : turn.reach address ≡ reached
  pub own : (turn.fd == exit_failure) ≡ false
  pub answer : Option ℕ
  pub answers : List (Option ℕ)
  pub takes : turn.answers ≡ some (header_size + m.size_data) ∷ answer ∷ answers

-- One turn for each client.
abbrev pub EachWorks : Message → List Member → List Turn → Type 0
EachWorks m [] [] = Unit {0}
EachWorks m [] (t ∷ ts) = ⊥
EachWorks m (n ∷ ns) [] = ⊥
EachWorks m (n ∷ ns) (t ∷ ts) = Works m n.address t × EachWorks m ns ts

abbrev pub bytes_of : Message → List ℕ
bytes_of m = header_of m ++ m.payload

-- All bytes of a message, to each of the clients.
abbrev pub deliveries : List Member → Message → List Delivery
deliveries ns m = map (λ n. record { to = n.address; sent = bytes_of m }) ns

run_turn-Works :
    (m : Message) (address : Address) (turn : Turn)
    → IsMessage m
    → Works m address turn
    → run_turn turn address m ≡ some (delivered, record { to = address; sent = bytes_of m })
unfolding run_turn
run_turn-Works m address turn ok w =
    let sent =
      send_message_for_one_client-whole turn.reach address w.up turn.fd w.own turn.closes m ok
        w.answer w.answers in
    rw (w.starts, w.takes, sent) refl

start_loop-delivered :
    (fuel : ℕ) (h : Heap ClientInfo) (s p : ℕ) (ns : List Member) {first : ℕ} (turns : List Turn)
    (m : Message)
    → IsMessage m
    → length ns < fuel
    → EachWorks m ns turns
    → IsHead h.cells s first
    → Seg s h.cells p ns s
    → start_loop fuel h (first_of s ns) turns m
      ≡ some (replicate (length ns) delivered, deliveries ns m)
unfolding start_loop
start_loop-delivered zero h s p ns turns m ok fits works head l = absurd (omega arith)
start_loop-delivered (suc fuel) h s p [] [] m ok fits works head l = rw head.at refl
start_loop-delivered (suc fuel) h s p [] (t ∷ ts) m ok fits works head l = absurd works
start_loop-delivered (suc fuel) h s p (n ∷ ns) [] m ok fits works head l = absurd works
start_loop-delivered (suc fuel) h s p (n ∷ ns) (t ∷ ts) m ok fits works head l =
    let more = start_loop-delivered fuel h s n.addr ns ts m ok (omega arith) works.1 head l.1 in
    rw (l.0, run_turn-Works m n.address t ok works.0, more) refl

-- The turns of the rounds, one round for each message.
abbrev pub AllWork : List Member → List Message → List (List Turn) → Type 0
AllWork ns [] [] = Unit {0}
AllWork ns [] (turns ∷ rounds) = ⊥
AllWork ns (m ∷ ms) [] = ⊥
AllWork ns (m ∷ ms) (turns ∷ rounds) = EachWorks m ns turns × AllWork ns ms rounds

module _ (fuel : ℕ) (h : Heap ClientInfo) (s : ℕ) (ns : List Member) (ok : IsClients h s ns) where
  send_to_all-delivered :
      (turns : List Turn) (m : Message)
      → IsMessage m
      → EachWorks m ns turns
      → send_to_all (length ns + suc fuel) h s turns m ≡ some (h, deliveries ns m)
  unfolding send_to_all
  send_to_all-delivered turns m okm works =
      let started =
        start_loop-delivered (length ns + suc fuel) h s s ns turns m okm (omega arith) works ok.head
          ok.linked in
      rw (ok.head.at, ok.head.at, started, send_message-delivered fuel h s ns ok) refl

  -- When all threads can be started, and the addresses of all clients are reached and take what they
  -- are sent at once: the rounds of `SendOutGoinMessages` empty the queue, send all well-formed
  -- messages in the order of the queue, each of them whole to the address of each client, in the
  -- order of the list, and keep all clients.
  pub send_rounds-all :
      (ms : List Message) (rounds : List (List Turn))
      → All IsMessage ms
      → AllWork ns ms rounds
      → send_rounds (length ns + suc fuel) s rounds (record { known_servers = h; outgoing = ms })
        ≡ some (record { known_servers = h; outgoing = [] }, map (deliveries ns) ms)
  unfolding send_rounds send_outgoing
  send_rounds-all [] [] okm works = refl
  send_rounds-all [] (turns ∷ rounds) okm works = absurd works
  send_rounds-all (m ∷ ms) [] okm works = absurd works
  send_rounds-all (m ∷ ms) (turns ∷ rounds) okm works =
      let sent = send_to_all-delivered turns m okm.0 works.0 in
      rw (sent, send_rounds-all ms rounds okm.1 works.1) refl
