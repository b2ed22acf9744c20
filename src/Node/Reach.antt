-- ===== src/Node/Reach.antt =====
-- What the threads of a node do, in any order: `read_thread` and the API put messages and requests
-- into the queues, and `gestion`, `mining` and `send_data` run their rounds.
use tek.Prelude.{
  ℕ, ◌≤◌, ◌≡◌, refl, ap, ◌∙◌, sym, Bool, some, List, [], ◌∷◌, ◌++◌, append_assoc, append-nil, arith,
  along, All, All-append, length,
}
use tek.Bytes.{IsUll}
use tek.Hash.{Sha}
use tek.Transaction.{Transaction, txs_to_bin, get_size_of_txsbin}
use tek.Transaction.Binary.{IsTransaction, length-txs_to_bin}
use tek.Blockchain.{blocks_number, blockchain_to_bin}
use tek.Message.{Message, type_blockchain, type_txs}
use tek.Message.Binary.{create_message-whole}
use tek.Node.{Node, poll_incoming, poll_api, poll_mining}
use tek.Node.Accept.{txs_message}
use tek.Node.Invariant.{IsIncoming, IsNode, Steps}
use tek.Node.Miner.{Job, finish_mining, send_data, send_txs}
use tek.Node.Mined.{IsJob, finish_mining-Steps}
use tek.Node.Rounds.{poll_incoming-Steps, poll_api-Steps, poll_mining-Steps}
use tek.Node.Handled.{chain_message}

abbrev pub txs_messages : List Transaction → List Message
txs_messages [] = []
txs_messages (t ∷ ts) = txs_message t ∷ txs_messages ts

send_txs-messages :
    (out : List Message) (ts : List Transaction) → send_txs out ts ≡ some (out ++ txs_messages ts)
unfolding send_txs
send_txs-messages out [] = ap some (sym (append-nil out))
send_txs-messages out (t ∷ ts) =
    let m =
      create_message-whole type_txs (get_size_of_txsbin t) (txs_to_bin t) (length-txs_to_bin t) in
    rw m (
      send_txs-messages (out ++ txs_message t ∷ []) ts
      ∙ ap some (append_assoc out (txs_message t ∷ []) (txs_messages ts)))

-- A round of `send_data` sends the chain, then the pending transactions in their order, and changes
-- nothing else.
pub send_data-all :
    (node : Node)
    → send_data node
      ≡ some (record node {
        outgoing = node.outgoing ++ chain_message node.bc ∷ txs_messages node.tl.transactions;
      })
unfolding send_data
send_data-all node =
    let bin = blockchain_to_bin node.bc in
    let m = create_message-whole type_blockchain (length bin) bin refl in
    let all =
      send_txs-messages (node.outgoing ++ chain_message node.bc ∷ []) node.tl.transactions in
    let flat =
      append_assoc node.outgoing (chain_message node.bc ∷ []) (txs_messages node.tl.transactions) in
    rw (m, all, flat) refl

-- One step of one thread. The three parts of a round of `gestion` are steps of their own, since the
-- thread holds no mutex between them.
pub data Step (sha : Sha) : Node → Node → Type 0 where
  arrives :
      (node : Node) (m : Message)
      → IsIncoming m
      → Step sha node (record node { incoming = node.incoming ++ m ∷ [] })
  asks :
      (node : Node) (t : Transaction)
      → IsTransaction t
      → Step sha node (record node { api_txs = node.api_txs ++ t ∷ [] })
  mines :
      (node node' : Node) (job : Job) (proof : ℕ)
      → IsJob job
      → IsUll proof
      → finish_mining sha job proof node ≡ some node'
      → Step sha node node'
  sends : (node node' : Node) → send_data node ≡ some node' → Step sha node node'
  polls_incoming :
      (node node' : Node) → poll_incoming sha node.incoming node ≡ some node' → Step sha node node'
  polls_api :
      (node node' : Node) (is_api : Bool)
      → poll_api is_api node.api_txs node ≡ some node'
      → Step sha node node'
  polls_mining :
      (node node' : Node) (is_mining : Bool)
      → poll_mining sha is_mining node.mining_blocks node ≡ some node'
      → Step sha node node'

pub data Reaches (sha : Sha) : Node → Node → Type 0 where
  stays : (node : Node) → Reaches sha node node
  steps :
      (node node1 node2 : Node)
      → Step sha node node1
      → Reaches sha node1 node2
      → Reaches sha node node2

module _ (sha : Sha) where
  with_queues :
      (node : Node) (ms : List Message) (ts : List Transaction)
      → IsNode sha node
      → All IsIncoming ms
      → All IsTransaction ts
      → IsNode sha (record node { incoming = ms; api_txs = ts })
  with_queues node ms ts ok hm ht = record {
    received = ok.received;
    chained = ok.chained;
    nonempty = ok.nonempty;
    stored = ok.stored;
    one_each = ok.one_each;
    messages = hm;
    requests = ht;
    mined = ok.mined;
  }

  sent-IsNode :
      (node : Node) (out : List Message)
      → IsNode sha node
      → IsNode sha (record node { outgoing = out })
  sent-IsNode node out ok = record {
    received = ok.received;
    chained = ok.chained;
    nonempty = ok.nonempty;
    stored = ok.stored;
    one_each = ok.one_each;
    messages = ok.messages;
    requests = ok.requests;
    mined = ok.mined;
  }

  taken-Steps : (node node' : Node) → Step sha node node' → IsNode sha node → Steps sha node node'
  taken-Steps _ _ (arrives node m good) ok = record {
    valid =
        with_queues node (node.incoming ++ m ∷ []) node.api_txs ok
          (All-append IsIncoming node.incoming (m ∷ []) ok.messages (good, tt)) ok.requests;
    longer = omega arith;
  }
  taken-Steps _ _ (asks node t good) ok = record {
    valid =
        with_queues node node.incoming (node.api_txs ++ t ∷ []) ok ok.messages
          (All-append IsTransaction node.api_txs (t ∷ []) ok.requests (good, tt));
    longer = omega arith;
  }
  taken-Steps _ _ (mines node node' job proof ready ull ran) ok =
      let (tl, run, held, good) = finish_mining-Steps sha job ready proof ull node ok in
      along (Steps sha node) (sym run ∙ ran) good
  taken-Steps _ _ (sends node node' ran) ok =
      along (Steps sha node) (sym (send_data-all node) ∙ ran)
        (record { valid = sent-IsNode node _ ok; longer = omega arith })
  taken-Steps _ _ (polls_incoming node node' ran) ok =
      poll_incoming-Steps sha node ok node.incoming node' ok.messages ran
  taken-Steps _ _ (polls_api node node' is_api ran) ok =
      let (next, run, good) = poll_api-Steps sha node ok is_api node.api_txs ok.requests in
      along (Steps sha node) (sym run ∙ ran) good
  taken-Steps _ _ (polls_mining node node' is_mining ran) ok =
      let (next, run, good) = poll_mining-Steps sha node ok is_mining node.mining_blocks ok.mined in
      along (Steps sha node) (sym run ∙ ran) good

  -- Messages and requests arrive, the three parts of a round of `gestion`, the end of a round of
  -- `mining` and the rounds of `send_data` run one at a time, in whatever order: from a well-formed
  -- node, every node that is reached has a linked chain that is no shorter, well-formed pending
  -- transactions with one for each sender at most, and well-formed queues of incoming messages, of
  -- requests and of mined blocks.
  pub reached-IsNode :
      (node node' : Node)
      → IsNode sha node
      → Reaches sha node node'
      → IsNode sha node' × (blocks_number node.bc ≤ blocks_number node'.bc)
  reached-IsNode _ _ ok (stays node) = (ok, omega arith)
  reached-IsNode _ _ ok (steps node node1 node2 first rest) =
      let s = taken-Steps node node1 first ok in
      let more = reached-IsNode node1 node2 s.valid rest in
      (more.0, omega (arith, s.longer, more.1))
