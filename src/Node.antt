-- ===== src/Node.antt =====
-- Projet/Noeud_de_gestion/gestion.c: the node's state and the loop of `gestion`.
-- The threads hold the mutexes for the whole of each step below, so a step is atomic. The queues
-- are those of Projet/Tools/queue, first in, first out.
pub mod Accept
pub mod Chains
pub mod Invariant
pub mod Rounds
pub mod Reach
pub mod Miner
pub mod Mined
pub mod Start
pub mod Relay
pub mod Handled
use tek.Prelude.{
  ℕ, Bool, true, false, not, Option, none, some, List, [], ◌∷◌, ◌++◌, ltb, ◌==◌, if◌then◌else◌,
  ◌>>=◌, length,
}
use tek.Bytes.{time_lt}
use tek.Hash.{Sha}
use tek.Transaction.{
  Transaction, TransactionsList, add_tx, bin_to_txs, get_size_of_txsbin, has_sended_txs, txs_to_bin,
}
use tek.Block.{Block}
use tek.Blockchain.{
  Blockchain, add_block, bin_to_blockchain, blockchain_to_bin, blocks_number, check_blockchain,
  enough_money, get_last_block, update_tl_with_bc,
}
use tek.Message.{Message, create_message, type_blockchain, type_txs}

-- What the threads of a node share: `bc_m`, `txs_temp_m` and the queues.
pub record Node : Type 0 where
  pub bc : Blockchain
  pub tl : TransactionsList
  pub incoming : List Message
  pub outgoing : List Message
  pub api_txs : List Transaction
  pub mining_blocks : List Block

-- A transaction from the network or from the API: refused while its sender has another one
-- pending, or has not enough money; else stored and sent on.
unfoldable pub accept_txs : Node → Transaction → Option Node
accept_txs node txs = do
  hassended ← has_sended_txs txs.sender node.tl
  if hassended then some node else do
    hasenough ← enough_money txs.sender txs.amount node.bc
    if not hasenough then some node else do
      tl ← add_tx node.tl txs
      msg ← create_message type_txs (get_size_of_txsbin txs) (txs_to_bin txs)
      some (record node { tl = tl; outgoing = node.outgoing ++ msg ∷ [] })

-- The chain is replaced, and the pending transactions are checked against the new one.
unfoldable pub replace_bc : Node → Blockchain → Option Node
replace_bc node bc = do tl ← update_tl_with_bc node.tl bc; some (record node { bc = bc; tl = tl })

-- A longer chain replaces that of the node, and so does one of its length whose last block is
-- earlier.
unfoldable pub accept_bc : Node → Blockchain → Option Node
unfolding replace_bc
accept_bc node bc =
    if blocks_number node.bc == blocks_number bc
    then (do
      last_cur_b ← get_last_block node.bc
      last_new_b ← get_last_block bc
      if time_lt last_new_b.time last_cur_b.time then replace_bc node bc else some node)
    else if ltb (blocks_number node.bc) (blocks_number bc)
    then replace_bc node bc
    else some node

unfoldable pub handle_message : Sha → Node → Message → Option Node
unfolding accept_txs accept_bc
handle_message sha node message =
    if message.type == type_txs
    then (do txs ← bin_to_txs message.payload; accept_txs node txs)
    else if message.type == type_blockchain
    then (do
      bc ← bin_to_blockchain message.payload
      res ← check_blockchain sha bc
      if not res then accept_bc node bc else some node)
    else some node

-- A block from the mining thread: added and sent, or dropped.
unfoldable pub handle_mined : Sha → Node → Block → Option Node
handle_mined sha node b = do
  (success, bc) ← add_block sha node.bc b
  if success
      then (do
        let bcbin = blockchain_to_bin bc
        msg ← create_message type_blockchain (length bcbin) bcbin
        some (record node { bc = bc; outgoing = node.outgoing ++ msg ∷ [] }))
      else some node

-- The three parts of one round of the loop: each takes the front of its queue, if there is one.
unfoldable pub poll_incoming : Sha → List Message → Node → Option Node
unfolding handle_message
poll_incoming sha [] node = some node
poll_incoming sha (message ∷ rest) node =
    handle_message sha (record node { incoming = rest }) message

unfoldable pub poll_api : Bool → List Transaction → Node → Option Node
unfolding accept_txs
poll_api is_api [] node = some node
poll_api is_api (txs ∷ rest) node =
    if is_api then accept_txs (record node { api_txs = rest }) txs else some node

unfoldable pub poll_mining : Sha → Bool → List Block → Node → Option Node
unfolding handle_mined
poll_mining sha is_mining [] node = some node
poll_mining sha is_mining (b ∷ rest) node =
    if is_mining then handle_mined sha (record node { mining_blocks = rest }) b else some node

-- One round of `while (1)` in `gestion`.
unfoldable pub gestion_round : Sha → (is_api is_mining : Bool) → Node → Option Node
unfolding poll_incoming poll_api poll_mining
gestion_round sha is_api is_mining node = do
  node1 ← poll_incoming sha node.incoming node
  node2 ← poll_api is_api node1.api_txs node1
  poll_mining sha is_mining node2.mining_blocks node2
