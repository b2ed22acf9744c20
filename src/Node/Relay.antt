-- ===== src/Node/Relay.antt =====
-- A transaction that one node sends and another gets, over a connection.
pub mod Chains
use tek.Prelude.{
  ℕ, ◌+◌, ◌≡◌, refl, sym, ap, ◌∙◌, Bool, true, false, some, List, [], ◌∷◌, ◌++◌, append-nil, arith,
  ◌==◌, if◌then◌else◌, ◌>>=◌, Bool-cases, inl, inr,
}
use tek.Hash.{Sha}
use tek.Transaction.{Transaction, TransactionsList, bin_to_txs, get_size_of_txsbin, txs_to_bin}
use tek.Transaction.Binary.{IsTransaction, length-txs_to_bin, bin_to_txs-txs_to_bin}
use tek.Message.{Message, type_txs, type_network}
use tek.Message.Binary.{IsMessage}
use tek.Network.Clients.{Attempt}
use tek.Network.Receive.{Inbox, read_thread}
use tek.Network.Receive.Chunks.{stream}
use tek.Network.Receive.Whole.{header_of, message_to_bin-header}
use tek.Network.Listen.Serves.{Carries, read_thread-incoming}
use tek.Network.Send.All.Every.{bytes_of}
use tek.Node.{Node, accept_txs, handle_message}
use tek.Node.Accept.{admits, txs_message, accept_txs-admits}
use tek.Node.Invariant.{IsNode, received-AllWellFormed}

txs_message-IsMessage : (t : Transaction) → IsTransaction t → IsMessage (txs_message t)
txs_message-IsMessage t ok = record {
  kind = omega arith;
  size = length-txs_to_bin t;
  ull = ok.total;
}

-- The bytes of a message for the node, on a connection.
pub bytes-Carries :
    (m : Message) (socket : List (List ℕ)) (rest : List ℕ)
    → IsMessage m
    → (m.type == type_network) ≡ false
    → stream socket ≡ bytes_of m ++ rest
    → Carries socket m
bytes-Carries m socket rest ok other arrives = record {
  formed = ok;
  for_node = other;
  bytes = bytes_of m;
  rest = rest;
  written = message_to_bin-header m ok;
  arrives = arrives;
}

taken_or_left :
    (taken : Bool) (b : Node) (t : Transaction) (tl : TransactionsList) (out : List Message)
    → tl.transactions ≡ b.tl.transactions ++ t ∷ []
    → (if taken then record b { tl = tl; outgoing = out } else b).tl.transactions
      ≡ (if taken then b.tl.transactions ++ t ∷ [] else b.tl.transactions)
taken_or_left true b t tl out e = e
taken_or_left false b t tl out e = refl

module _ (sha : Sha) (fuel find_fuel : ℕ) (attempts : ℕ → Attempt) (list : ℕ) (inbox : Inbox)
    (socket : List (List ℕ)) (rest : List ℕ) where
  -- A node that admits a well-formed transaction puts a message into its queue. From a connection
  -- that delivers the bytes of that message, in any pieces, another node gets it into its own queue.
  -- When its loop takes it from there, that node decides on the same transaction by its own chain and
  -- its own pending transactions.
  pub relay_txs :
      (a b : Node) (t : Transaction)
      → IsNode sha a
      → IsNode sha b
      → IsTransaction t
      → admits a t ≡ true
      → stream socket ≡ bytes_of (txs_message t) ++ rest
      → (a' b' : Node) × (accept_txs a t ≡ some a')
        × (a'.outgoing ≡ a.outgoing ++ txs_message t ∷ [])
        × (read_thread fuel find_fuel attempts list inbox socket
            ≡ some (record inbox { incoming = inbox.incoming ++ txs_message t ∷ [] }))
        × (handle_message sha b (txs_message t) ≡ some b')
        × (b'.tl.transactions
            ≡ (if admits b t then b.tl.transactions ++ t ∷ [] else b.tl.transactions))
  unfolding handle_message
  relay_txs a b t ok_a ok_b ok_t admitted arrives =
      let (tl_a, run_a, held_a) =
        accept_txs-admits a t (received-AllWellFormed a.bc.blocks ok_a.received) ok_a.stored ok_t in
      let (tl_b, run_b, held_b) =
        accept_txs-admits b t (received-AllWellFormed b.bc.blocks ok_b.received) ok_b.stored ok_t in
      let read : bin_to_txs (txs_to_bin t) ≡ some t =
        rw (append-nil (txs_to_bin t)) at (bin_to_txs-txs_to_bin t [] ok_t) in
      let carries =
        bytes-Carries (txs_message t) socket rest (txs_message-IsMessage t ok_t) refl arrives in
      (
        record a { tl = tl_a; outgoing = a.outgoing ++ txs_message t ∷ [] },
        if admits b t
            then record b { tl = tl_b; outgoing = b.outgoing ++ txs_message t ∷ [] }
            else b,
        rw admitted at run_a,
        refl,
        read_thread-incoming fuel find_fuel attempts list inbox socket (txs_message t) carries,
        rw read run_b,
        taken_or_left (admits b t) b t tl_b (b.outgoing ++ txs_message t ∷ []) held_b.items,
      )
