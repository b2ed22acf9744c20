-- ===== src/Block.antt =====
-- Projet/Block/block.c and block.h.
pub mod HashText
pub mod Binary
pub mod Decode
pub mod Seal
pub mod Writes
use tek.Prelude.{
  ℕ, zero, suc, ◌+◌, ◌-◌, ◌*◌, ◌^◌, Bool, true, false, ◌&&◌, Option, none, some, List, [], ◌∷◌,
  ◌++◌, ltb, ◌==◌, if◌then◌else◌, ◌>>=◌, length, drop, replicate,
}
use tek.Bytes.{block, decimal, fetch, fetch_ull, le_bytes, until_nul, write_at, zero_pad}
use tek.Hash.{Sha, sha256, sha256_to_ascii, sha256_block_size}
use tek.Mining.{len_of_proof}
use tek.Transaction.{
  Transaction, TransactionsList, size, get_size_of_txsbin, txs_to_bin, bin_to_txs, tl_to_string,
  init_list_txs, add_tx,
}

-- `BLOCK`.
pub record Block : Type 0 where
  pub previus_hash : List ℕ
  pub tl : TransactionsList
  pub block_hash : List ℕ
  pub proof : ℕ
  pub time : ℕ

-- `initBlock`, the clock showing `now`. The other fields keep what the stack held, `junk`.
unfoldable pub init_block : (now : ℕ) → (junk : Block) → Block
init_block now junk = record junk { time = now; tl = init_list_txs }

-- The loop of `isGenesis`.
unfoldable pub all_zero : List ℕ → Bool
all_zero [] = true
all_zero (b ∷ hash) = let rest = all_zero hash in if b == 0 then rest else false

unfoldable pub is_genesis : Block → Bool
unfolding all_zero
is_genesis b = all_zero b.previus_hash

-- `getMerkleHash`.
unfoldable pub get_merkle_hash : Sha → Block → Option (List ℕ)
unfolding sha256
get_merkle_hash sha b = do buf ← tl_to_string b.tl; some (sha256 sha buf)

-- The writes of `getHash` into `buf`. Each `sprintf` ends with a NUL, which the next write covers.
unfoldable pub hash_buffer : Sha → Block → List ℕ → Option (List ℕ)
unfolding get_merkle_hash
hash_buffer sha b buf = do
  merkle_hash ← get_merkle_hash sha b
  let offset = len_of_proof b.proof
  buf1 ← write_at 0 (block (decimal b.proof)) buf
  buf2 ← write_at offset (block (zero_pad 11 (decimal b.time))) buf1
  buf3 ← write_at (offset + 11) (sha256_to_ascii b.previus_hash) buf2
  buf4 ← write_at (offset + 11 + 64) (sha256_to_ascii merkle_hash) buf3
  write_at (offset + 11 + 64 + 64) (0 ∷ []) buf4

abbrev pub hash_buffer_size : Block → ℕ
hash_buffer_size b = 4 * sha256_block_size + len_of_proof b.proof + 1 + 11

-- `getHash`, where the stack held `stack` in the place of `buf`.
unfoldable pub get_hash_in : Sha → List ℕ → Block → Option (List ℕ)
unfolding hash_buffer sha256
get_hash_in sha stack b = do buf ← hash_buffer sha b stack; some (sha256 sha buf)

unfoldable pub get_hash : Sha → Block → Option (List ℕ)
unfolding get_hash_in
get_hash sha b = get_hash_in sha (replicate (hash_buffer_size b) 0) b

-- The sizes of the transactions of `getSizeOf_blockbin`.
unfoldable pub txs_sizes : List Transaction → ℕ
txs_sizes [] = 0
txs_sizes (t ∷ ts) = get_size_of_txsbin t + txs_sizes ts

unfoldable pub get_size_of_blockbin : Block → ℕ
unfolding txs_sizes
get_size_of_blockbin b = sha256_block_size * 2 + 8 + 8 + 8 + txs_sizes b.tl.transactions

unfoldable pub txs_bytes : List Transaction → List ℕ
txs_bytes [] = []
txs_bytes (t ∷ ts) = txs_to_bin t ++ txs_bytes ts

unfoldable pub block_to_bin : Block → List ℕ
unfolding txs_bytes
block_to_bin b =
    le_bytes 8 (size b.tl)
    ++ (b.previus_hash
        ++ (b.block_hash
            ++ (le_bytes 8 b.proof ++ (le_bytes 8 b.time ++ txs_bytes b.tl.transactions))))

-- The loop of `binToBlock`: `n` transactions from `bin` on. The cursor advances by the size that
-- the transaction read would have.
unfoldable pub read_txs : (n : ℕ) → List ℕ → TransactionsList → Option TransactionsList
read_txs zero bin tl = some tl
read_txs (suc n) bin tl = do
  t ← bin_to_txs bin
  tl' ← add_tx tl t
  read_txs n (drop (get_size_of_txsbin t) bin) tl'

unfoldable pub bin_to_block : List ℕ → Option Block
unfolding read_txs
bin_to_block bin = do
  (nb_txs, bin1) ← fetch_ull bin
  (previus_hash, bin2) ← fetch sha256_block_size bin1
  (block_hash, bin3) ← fetch sha256_block_size bin2
  (proof, bin4) ← fetch_ull bin3
  (time, bin5) ← fetch_ull bin4
  tl ← read_txs nb_txs bin5 init_list_txs
  some (record {
    previus_hash = previus_hash;
    tl = tl;
    block_hash = block_hash;
    proof = proof;
    time = time;
  })
