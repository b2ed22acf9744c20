-- ===== src/Examples/Nodes.antt =====
-- The node, on the data.
use tek.Prelude.{◌≤◌, ◌≡◌, refl, some, [], ◌∷◌, arith, if◌then◌else◌}
use tek.Bytes.{IsUll}
use tek.Transaction.{TransactionsList}
use tek.Transaction.Store.{Holds, init-IsStored}
use tek.Block.Seal.{sum_text}
use tek.Blockchain.{Blockchain}
use tek.Node.{Node, accept_txs, accept_bc, handle_mined}
use tek.Node.Accept.{accept_txs-admits, admits, txs_message}
use tek.Node.Invariant.{IsNode}
use tek.Message.{Message}
use tek.Node.Miner.{Job}
use tek.Node.Mined.{IsJob, mined, handle_mined-added}
use tek.Node.Reach.{Reaches, stays, steps, arrives, sends, send_data-all, reached-IsNode}
use tek.Node.Handled.{chain_message}
use tek.Examples.Data.{
  payment, first_money-IsTransaction, payment-IsTransaction, payment_list-IsStored, genesis, second,
  short_chain, sha0, zero-IsHash, node0, node0-IsNode, payment-AllPrint,
}

accept_txs-admits_example :
    (tl : TransactionsList) × (accept_txs node0 payment
      ≡ some (
          if admits node0 payment
          then record node0 { tl = tl; outgoing = txs_message payment ∷ [] }
          else node0))
    × Holds (payment ∷ []) tl
accept_txs-admits_example =
    accept_txs-admits node0 payment ((first_money-IsTransaction, tt), tt) init-IsStored
      payment-IsTransaction

-- A block on top of the genesis block, with the payment.
abbrev job : Job
job = record { block = second; nb_transactions = 1; sum = sum_text sha0 second }

job-IsJob : IsJob job
job-IsJob = record {
  previus = zero-IsHash;
  stored = payment_list-IsStored;
  count = omega arith;
  soon = omega arith;
  printed = payment-AllPrint;
}

abbrev waiting : TransactionsList → Node
waiting tl = record node0 {
  tl = tl;
  mining_blocks = second ∷ mined sha0 job job-IsJob 4 (omega arith) ∷ [];
}

abbrev longer : Blockchain
longer = record { blocks = genesis ∷ mined sha0 job job-IsJob 4 (omega arith) ∷ [] }

handle_mined-added_example :
    handle_mined sha0 node0 (mined sha0 job job-IsJob 4 (omega arith))
    ≡ some (record node0 { bc = longer; outgoing = chain_message longer ∷ [] })
unfolding tek.Bytes.time_lt
handle_mined-added_example =
    handle_mined-added sha0 job job-IsJob 4 (omega arith) node0 genesis [] node0-IsNode refl refl
      refl

-- A message that no part of the node takes.
abbrev hello : Message
hello = record { type = 255; size_data = 1; payload = 1 ∷ [] }

abbrev node1 : Node
node1 = record node0 { incoming = hello ∷ [] }

abbrev node2 : Node
node2 = record node1 { outgoing = chain_message short_chain ∷ [] }

node0-Reaches : Reaches sha0 node0 node2
node0-Reaches =
    steps node0 node1 node2
      (arrives node0 hello (record { bytes = (omega arith, tt); size = omega arith }))
      (steps node1 node2 node2 (sends node1 node2 (send_data-all node1)) (stays node2))

reached-IsNode_example : IsNode sha0 node2 × (1 ≤ 1)
reached-IsNode_example = reached-IsNode sha0 node0 node2 node0-IsNode node0-Reaches
