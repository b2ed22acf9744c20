-- ===== src/Blockchain.antt =====
-- Projet/Block/blockchain.c and blockchain.h.
pub mod Chain
pub mod Binary
pub mod Money
pub mod Decode
pub mod Genesis
pub mod Pool
use tek.Prelude.{
  ℕ, zero, suc, ◌+◌, ◌-◌, ◌*◌, ◌%◌, ◌^◌, Bool, true, false, not, ◌&&◌, Option, none, some, List, [],
  ◌∷◌, ◌++◌, ltb, ◌==◌, if◌then◌else◌, ◌>>=◌, length, get_elem?, take, drop, replicate,
}
use tek.Bytes.{block, fetch, fetch_ull, le_bytes, memcmp, time_lt, signed_pad}
use tek.Hash.{Sha, sha256_to_ascii, sha256_block_size}
use tek.Transaction.{Transaction, TransactionsList, init_list_txs, add_tx, create_txs, txs_equal}
use tek.Block.{
  Block, get_hash, get_merkle_hash, get_size_of_blockbin, block_to_bin, bin_to_block, init_block,
}

-- `BLOCKCHAIN`: the `blocksNumber` blocks.
pub record Blockchain : Type 0 where
  pub blocks : List Block

abbrev pub blocks_number : Blockchain → ℕ
blocks_number bc = length bc.blocks

-- `getLastBlock`. Of no block, the index is outside the array.
unfoldable pub get_last_block : Blockchain → Option Block
get_last_block bc =
    if blocks_number bc == 0 then none else get_elem? bc.blocks (blocks_number bc - 1)

-- `addBlock`: 1 is `true`.
unfoldable pub add_block : Sha → Blockchain → Block → Option (Bool × Blockchain)
unfolding get_last_block
add_block sha bc b = do
  last ← get_last_block bc
  if time_lt b.time last.time then some (false, bc) else do
    linked ← memcmp sha256_block_size b.previus_hash last.block_hash
    if not linked then some (false, bc) else do
      hash ← get_hash sha b
      sealed ← memcmp sha256_block_size hash b.block_hash
      if not sealed then some (false, bc) else some (true, record { blocks = bc.blocks ++ b ∷ [] })

-- The loop of `checkBlockchain`, `prev` being `blocks[i - 1]`: 1 is `true`, something is wrong.
unfoldable pub check_from : Sha → Block → List Block → Option Bool
check_from sha prev [] = some false
check_from sha prev (current ∷ rest) =
    let more = check_from sha current rest in
    get_hash sha current >>= λ hash.
    if time_lt current.time prev.time
    then some true
    else (memcmp sha256_block_size current.previus_hash prev.block_hash >>= λ linked.
        if not linked
        then some true
        else (memcmp sha256_block_size current.block_hash hash >>= λ sealed.
            if not sealed then some true else more))

unfoldable pub check_blocks : Sha → List Block → Option Bool
unfolding check_from
check_blocks sha [] = some false
check_blocks sha (first ∷ rest) = check_from sha first rest

unfoldable pub check_blockchain : Sha → Blockchain → Option Bool
unfolding check_blocks
check_blockchain sha bc = check_blocks sha bc.blocks

-- The inner loop of `findTxsInBc`.
unfoldable pub find_txs_in_block : Transaction → List Transaction → Option Bool
find_txs_in_block txs [] = some false
find_txs_in_block txs (t ∷ ts) =
    let more = find_txs_in_block txs ts in
    txs_equal txs t >>= λ same. if same then some true else more

unfoldable pub find_txs_in_blocks : Transaction → List Block → Option Bool
unfolding find_txs_in_block
find_txs_in_blocks txs [] = some false
find_txs_in_blocks txs (b ∷ bs) =
    let more = find_txs_in_blocks txs bs in
    find_txs_in_block txs b.tl.transactions >>= λ found. if found then some true else more

-- `findTxsInBc`. The loop starts at block 1.
unfoldable pub find_txs_in_bc : Transaction → Blockchain → Option Bool
unfolding find_txs_in_blocks
find_txs_in_bc txs bc = find_txs_in_blocks txs (drop 1 bc.blocks)

-- The inner loop of `amountMoney`, in 64-bit arithmetic.
unfoldable pub amount_in : List ℕ → ℕ → List Transaction → Option ℕ
amount_in address money [] = some money
amount_in address money (t ∷ ts) =
    memcmp (length address) (block address) (block t.sender) >>= λ sends.
    let money1 = if sends then (money + 2 ^ 64 - t.amount) % 2 ^ 64 else money in
    memcmp (length address) (block address) (block t.receiver) >>= λ receives.
    amount_in address (if receives then (money1 + t.amount) % 2 ^ 64 else money1) ts

unfoldable pub amount_blocks : List ℕ → ℕ → List Block → Option ℕ
unfolding amount_in
amount_blocks address money [] = some money
amount_blocks address money (b ∷ bs) =
    amount_in address money b.tl.transactions >>= λ money'. amount_blocks address money' bs

unfoldable pub amount_money : List ℕ → Blockchain → Option ℕ
unfolding amount_blocks
amount_money address bc = amount_blocks address 0 bc.blocks

unfoldable pub enough_money : List ℕ → ℕ → Blockchain → Option Bool
unfolding amount_money
enough_money address amount bc = do money ← amount_money address bc; some (not (ltb money amount))

-- The loop of `updateTlWithBc`.
unfoldable pub update_loop :
    Blockchain → List Transaction → TransactionsList → Option TransactionsList
unfolding find_txs_in_bc enough_money add_tx
update_loop bc [] new_tl = some new_tl
update_loop bc (t ∷ ts) new_tl = find_txs_in_bc t bc >>= λ found.
    (if found then some false else enough_money t.sender t.amount bc) >>= λ keep.
    (if keep then add_tx new_tl t else some new_tl) >>= λ new_tl'. update_loop bc ts new_tl'

unfoldable pub update_tl_with_bc : TransactionsList → Blockchain → Option TransactionsList
unfolding update_loop
update_tl_with_bc tl bc = update_loop bc tl.transactions init_list_txs

unfoldable pub blocks_bytes : List Block → List ℕ
blocks_bytes [] = []
blocks_bytes (b ∷ bs) = block_to_bin b ++ blocks_bytes bs

unfoldable pub blockchain_to_bin : Blockchain → List ℕ
unfolding blocks_bytes
blockchain_to_bin bc = le_bytes 8 (blocks_number bc) ++ blocks_bytes bc.blocks

-- The loop of `binToBlockchain`. It also copies the first word of each block, and does not use it.
unfoldable pub read_blocks : (n : ℕ) → List ℕ → Option (List Block)
read_blocks zero bin = some []
read_blocks (suc n) bin = do
  (nb_txs, ignored) ← fetch_ull bin
  b ← bin_to_block bin
  bs ← read_blocks n (drop (get_size_of_blockbin b) bin)
  some (b ∷ bs)

unfoldable pub bin_to_blockchain : List ℕ → Option Blockchain
unfolding read_blocks
bin_to_blockchain bin = do
  (nb_blocks, rest) ← fetch_ull bin
  blocks ← read_blocks nb_blocks rest
  some (record { blocks = blocks })

-- `saveBlockchain`: what is in `bcsave.data` afterwards.
unfoldable pub save_blockchain : Blockchain → List ℕ
unfolding blockchain_to_bin
save_blockchain bc = let bcbin = blockchain_to_bin bc in le_bytes 8 (length bcbin) ++ bcbin

-- `loadBlockchain` from a file that can be opened. Each `fread` fills a zeroed object as far as the
-- file goes.
unfoldable pub load_blockchain : List ℕ → Option Blockchain
unfolding bin_to_blockchain
load_blockchain file = do
  (size, ignored) ← fetch_ull (file ++ replicate 8 0)
  let rest = drop 8 file
  bin_to_blockchain (take size rest ++ replicate (size - length rest) 0)
