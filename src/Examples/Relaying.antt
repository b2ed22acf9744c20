-- ===== src/Examples/Relaying.antt =====
-- Two nodes, and a node that ends, on the data.
use tek.Memory.{Heap}
use tek.Prelude.{
  ℕ, ◌≡◌, refl, true, none, some, List, [], ◌∷◌, ◌++◌, arith, if◌then◌else◌, length, take, drop,
  All,
}
use tek.Bytes.{IsUll, le_bytes}
use tek.Transaction.Compare.{sent_by}
use tek.Blockchain.Money.{balance}
use tek.Network.Receive.Chunks.{stream}
use tek.Transaction.{TransactionsList, init_list_txs}
use tek.Transaction.Store.{Holds}
use tek.Block.HashText.{hash_text}
use tek.Blockchain.{Blockchain, blocks_number, blockchain_to_bin}
use tek.Blockchain.Binary.{SameBlocks}
use tek.Blockchain.Chain.{Follows}
use tek.Blockchain.Pool.{pending}
use tek.Message.{Message}
use tek.Api.Accept.{accepts, begins, work_all}
use tek.Api.Accept.Shared.{Unserved, work_all-lost}
use tek.Network.Clients.{ClientInfo}
use tek.Network.Receive.{read_thread}
use tek.Network.Send.All.Every.{bytes_of}
use tek.Network.Start.Free.{free_server, free_server-all}
use tek.Node.{Node, accept_txs, handle_message}
use tek.Node.Accept.{admits, txs_message}
use tek.Node.Chains.{prefers}
use tek.Node.Invariant.{IsNode}
use tek.Node.Relay.{relay_txs}
use tek.Node.Relay.Chains.{relay_bc}
use tek.Node.Handled.{chain_message}
use tek.Queue.Shared.{SharedQueue}
use tek.Examples.Data.{
  sha0, payment, payment-IsTransaction, payment-AllPrint, genesis, second, genesis-IsReceived,
  second-IsReceived, long_chain, node0, node0-IsNode,
}
use tek.Examples.Network.{
  inbox0, reachable, two_nodes, node_a, node_b, two_nodes-IsClients, server0,
}

-- The bytes of a message in two pieces.
abbrev pieces : Message → List (List ℕ)
pieces m = take 3 (bytes_of m) ∷ drop 3 (bytes_of m) ∷ []

stream-pieces : (m : Message) → stream (pieces m) ≡ bytes_of m ++ []
unfolding le_bytes
stream-pieces m = refl

payment-admitted : admits node0 payment ≡ true
unfolding admits sent_by balance tek.Bytes.Text.is_prefix
payment-admitted = refl

abbrev ahead : Node
ahead = record node0 { bc = long_chain }

second-Follows : Follows sha0 genesis second
unfolding tek.Bytes.time_lt tek.Bytes.decimal tek.Bytes.zero_pad tek.Hash.sha256_to_ascii
    tek.Block.HashText.merkle_hash
second-Follows = record { in_time = refl; linked = refl; sealed = refl }

ahead-IsNode : IsNode sha0 ahead
ahead-IsNode = record {
  received = (genesis-IsReceived, (second-IsReceived, tt));
  chained = (second-Follows, tt);
  nonempty = tt;
  stored = node0-IsNode.stored;
  one_each = tt;
  messages = tt;
  requests = node0-IsNode.requests;
  mined = node0-IsNode.mined;
}

relay_txs_example :
    (a b : Node) × (accept_txs node0 payment ≡ some a)
    × (a.outgoing ≡ txs_message payment ∷ [])
    × (read_thread 2 2 reachable 0 inbox0 (pieces (txs_message payment))
        ≡ some (record inbox0 { incoming = txs_message payment ∷ [] }))
    × (handle_message sha0 ahead (txs_message payment) ≡ some b)
    × (b.tl.transactions ≡ (if admits ahead payment then payment ∷ [] else []))
relay_txs_example =
    relay_txs sha0 2 2 reachable 0 inbox0 (pieces (txs_message payment)) [] node0 ahead payment
      node0-IsNode ahead-IsNode payment-IsTransaction payment-admitted
      (stream-pieces (txs_message payment))

ahead_small : IsUll (length (blockchain_to_bin long_chain))
unfolding blockchain_to_bin tek.Blockchain.blocks_bytes tek.Block.block_to_bin tek.Block.txs_bytes
    tek.Transaction.txs_to_bin le_bytes
ahead_small = omega arith

relay_bc_example :
    (bc : Blockchain) × (tl : TransactionsList) × SameBlocks long_chain.blocks bc.blocks
    × (read_thread 2 2 reachable 0 inbox0 (pieces (chain_message long_chain))
        ≡ some (record inbox0 { incoming = chain_message long_chain ∷ [] }))
    × (handle_message sha0 node0 (chain_message long_chain)
        ≡ some (
            if prefers node0.bc.blocks long_chain.blocks
            then record node0 { bc = bc; tl = tl }
            else node0))
    × Holds (pending bc []) tl
relay_bc_example =
    relay_bc sha0 2 2 reachable 0 inbox0 (pieces (chain_message long_chain)) [] ahead node0
      ahead-IsNode node0-IsNode (omega arith) ahead_small (payment-AllPrint, tt)
      (stream-pieces (chain_message long_chain))

work_all-lost_example :
    Unserved 3
      (work_all
        (record { work_arg = 0; waiting = 0; served = [] })
        (accepts 3 ∷ accepts 4 ∷ begins ∷ begins ∷ [])).served
work_all-lost_example =
    work_all-lost (record { work_arg = 0; waiting = 0; served = [] }) 3 4 (begins ∷ begins ∷ [])
      refl tt tt

abbrev sends_two : SharedQueue
sends_two = record { lock = 1; size = 2; queue = 7 ∷ 8 ∷ [] }

abbrev gets_one : SharedQueue
gets_one = record { lock = 1; size = 1; queue = 9 ∷ [] }

free_server-all_example :
    (h : Heap ClientInfo) × (free_server 4
        (record server0 { clients = two_nodes })
        sends_two
        gets_one
      ≡ some (7 ∷ 8 ∷ 9 ∷ [], h))
    × (h.cells 0 ≡ none)
    × All (λ n. h.cells n.addr ≡ none) (node_a ∷ node_b ∷ [])
free_server-all_example =
    free_server-all 4 (record server0 { clients = two_nodes }) sends_two gets_one
      (node_a ∷ node_b ∷ []) (omega arith) (omega arith) (omega arith)
      (record { lock = refl; size = refl }) (record { lock = refl; size = refl })
      two_nodes-IsClients
