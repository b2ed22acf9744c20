-- ===== src/Node/Miner.antt =====
-- Projet/Noeud_de_gestion/gestion.c: one round of the thread `mining`, and of `send_data`.
-- `mining` holds the mutex of the transactions before and after, not while it searches a proof, so
-- its round is two steps, `start_mining` and `finish_mining`.
use tek.Prelude.{ℕ, Option, some, List, [], ◌∷◌, ◌++◌, ◌>>=◌, length}
use tek.Bytes.{decimal, zero_pad}
use tek.Hash.{Sha}
use tek.Transaction.{
  TransactionsList, Transaction, size, add_all, get_size_of_txsbin, remove_txs_list, txs_to_bin,
}
use tek.Block.{Block, init_block}
use tek.Block.Seal.{sum_of, seal}
use tek.Blockchain.{Blockchain, blockchain_to_bin, get_last_block}
use tek.Message.{Message, create_message, type_blockchain, type_txs}
use tek.Node.{Node}

-- What a round of `mining` keeps while it searches: the block, the number of transactions in it,
-- and the string it gives to `mine_from_string`.
pub record Job : Type 0 where
  pub block : Block
  pub nb_transactions : ℕ
  pub sum : List ℕ

-- Up to the call of `mine_from_string`, for a list that is not empty: `bc` is the chain when its
-- mutex was held, and `tl` the list when its own was. The clock shows `now`; the memory of the new
-- block held `junk`.
unfoldable pub start_mining :
    Sha → (now : ℕ) → (junk : Block) → Blockchain → TransactionsList → Option Job
unfolding init_block add_all sum_of
start_mining sha now junk bc txl = do
  last_block ← get_last_block bc
  let started = record (init_block now junk) { previus_hash = last_block.block_hash }
  tl ← add_all started.tl txl.transactions
  let block = record started { tl = tl }
  sum ← sum_of sha block (zero_pad 11 (decimal now))
  some (record { block = block; nb_transactions = size txl; sum = sum })

-- From its return with `proof` on.
unfoldable pub finish_mining : Sha → Job → (proof : ℕ) → Node → Option Node
unfolding seal
finish_mining sha job proof node = do
  tl ← remove_txs_list node.tl 0 job.nb_transactions
  block ← seal sha job.block proof
  some (record node { tl = tl; mining_blocks = node.mining_blocks ++ block ∷ [] })

-- The loop of `send_data` over the pending transactions.
unfoldable pub send_txs : List Message → List Transaction → Option (List Message)
send_txs out [] = some out
send_txs out (t ∷ ts) = create_message type_txs (get_size_of_txsbin t) (txs_to_bin t) >>= λ msg.
    send_txs (out ++ msg ∷ []) ts

unfoldable pub send_data : Node → Option Node
unfolding send_txs
send_data node = do
  let bcbin = blockchain_to_bin node.bc
  msg ← create_message type_blockchain (length bcbin) bcbin
  out ← send_txs (node.outgoing ++ msg ∷ []) node.tl.transactions
  some (record node { outgoing = out })
