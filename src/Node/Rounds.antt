-- ===== src/Node/Rounds.antt =====
-- The rounds of `gestion` keep what holds of a node.
use tek.Prelude.{◌≡◌, refl, Bool, true, false, some, List, [], ◌∷◌, All}
use tek.Hash.{Sha}
use tek.Transaction.{Transaction}
use tek.Transaction.Binary.{IsTransaction}
use tek.Block.{Block}
use tek.Message.{Message}
use tek.Node.{Node, poll_incoming, poll_api, poll_mining}
use tek.Node.Invariant.{IsIncoming, IsNode, Steps, Steps-same, IsMined, accept_txs-Steps}
use tek.Node.Handled.{handle_message-Steps, handle_mined-Steps, same-Steps}

module _ (sha : Sha) (node : Node) (ok : IsNode sha node) where
  -- The node without the fronts of some queues.
  IsNode-queues :
      (ms : List Message) (ts : List Transaction) (bs : List Block)
      → All IsIncoming ms
      → All IsTransaction ts
      → All IsMined bs
      → IsNode sha (record node { incoming = ms; api_txs = ts; mining_blocks = bs })
  IsNode-queues ms ts bs hm ht hb = record {
    received = ok.received;
    chained = ok.chained;
    nonempty = ok.nonempty;
    stored = ok.stored;
    one_each = ok.one_each;
    messages = hm;
    requests = ht;
    mined = hb;
  }

  pub poll_incoming-Steps :
      (ms : List Message) (node' : Node)
      → All IsIncoming ms
      → poll_incoming sha ms node ≡ some node'
      → Steps sha node node'
  unfolding poll_incoming
  poll_incoming-Steps [] node' h e = same-Steps sha node ok node' e
  poll_incoming-Steps (m ∷ rest) node' h e =
      let good = IsNode-queues rest node.api_txs node.mining_blocks h.1 ok.requests ok.mined in
      let s = handle_message-Steps sha (record node { incoming = rest }) good m node' h.0 e in
      record { valid = s.valid; longer = s.longer }

  -- A round over the requests or the mined blocks does not fail.
  pub poll_api-Steps :
      (is_api : Bool) (ts : List Transaction)
      → All IsTransaction ts
      → (node' : Node) × (poll_api is_api ts node ≡ some node') × Steps sha node node'
  unfolding poll_api
  poll_api-Steps is_api [] h = (node, refl, Steps-same sha node ok)
  poll_api-Steps false (t ∷ rest) h = (node, refl, Steps-same sha node ok)
  poll_api-Steps true (t ∷ rest) h =
      let good = IsNode-queues node.incoming rest node.mining_blocks ok.messages h.1 ok.mined in
      let (next, run, s) = accept_txs-Steps sha (record node { api_txs = rest }) good t h.0 in
      (next, run, record { valid = s.valid; longer = s.longer })

  pub poll_mining-Steps :
      (is_mining : Bool) (bs : List Block)
      → All IsMined bs
      → (node' : Node) × (poll_mining sha is_mining bs node ≡ some node') × Steps sha node node'
  unfolding poll_mining
  poll_mining-Steps is_mining [] h = (node, refl, Steps-same sha node ok)
  poll_mining-Steps false (b ∷ rest) h = (node, refl, Steps-same sha node ok)
  poll_mining-Steps true (b ∷ rest) h =
      let good = IsNode-queues node.incoming node.api_txs rest ok.messages ok.requests h.1 in
      let (next, run, s) =
        handle_mined-Steps sha (record node { mining_blocks = rest }) good b h.0 in
      (next, run, record { valid = s.valid; longer = s.longer })
