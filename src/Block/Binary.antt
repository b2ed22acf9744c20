-- ===== src/Block/Binary.antt =====
-- `blockToBin` and `binToBlock`.
use tek.Prelude.{
  ℕ, ◌+◌, ◌*◌, ◌≡◌, refl, ap, ◌∙◌, sym, some, List, [], ◌∷◌, ◌++◌, append-nil, append_assoc, arith,
  length, length-append, drop, drop-append, All,
}
use tek.Bytes.{IsUll, le_bytes, fetch_ull}
use tek.Bytes.Words.{length-le_bytes, fetch-append, fetch_ull-le_bytes}
use tek.Transaction.{
  Transaction, TransactionsList, size, init_list_txs, get_size_of_txsbin, txs_to_bin,
}
use tek.Transaction.Binary.{IsTransaction, length-txs_to_bin, bin_to_txs-txs_to_bin}
use tek.Transaction.Store.{IsStored, Holds, init-IsStored, add_tx-Holds}
use tek.Block.{
  Block, txs_sizes, get_size_of_blockbin, txs_bytes, block_to_bin, read_txs, bin_to_block,
}

-- A block as the program builds it.
pub record IsBlock (b : Block) : Type 0 where
  pub previus_size : length b.previus_hash ≡ 32
  pub hash_size : length b.block_hash ≡ 32
  pub proof : IsUll b.proof
  pub time : IsUll b.time
  pub stored : IsStored b.tl
  pub count : IsUll (size b.tl)

-- The same block; only the slots of its list may be as many others.
pub record SameBlock (b b' : Block) : Type 0 where
  pub same : b' ≡ record b { tl = b'.tl }
  pub items : Holds b.tl.transactions b'.tl

length-txs_bytes : (ts : List Transaction) → length (txs_bytes ts) ≡ txs_sizes ts
unfolding txs_bytes txs_sizes
length-txs_bytes [] = refl
length-txs_bytes (t ∷ ts) =
    omega
      (arith, length-append (txs_to_bin t) (txs_bytes ts), length-txs_to_bin t, length-txs_bytes ts)

-- For a well-formed block, `getSizeOf_blockbin` is the number of bytes that `blockToBin` writes.
pub length-block_to_bin : (b : Block) → IsBlock b → length (block_to_bin b) ≡ get_size_of_blockbin b
unfolding block_to_bin get_size_of_blockbin
length-block_to_bin b ok = omega (
  arith,
  ok.previus_size,
  ok.hash_size,
  length-append {0},
  length-le_bytes,
  length-txs_bytes b.tl.transactions,
)

drop-txs_to_bin :
    (t : Transaction) (rest : List ℕ) → drop (get_size_of_txsbin t) (txs_to_bin t ++ rest) ≡ rest
drop-txs_to_bin t rest = rw (← length-txs_to_bin t) (drop-append (txs_to_bin t) rest)

read_txs-Holds :
    (ts : List Transaction) (rest : List ℕ) (tl : TransactionsList)
    → All IsTransaction ts
    → IsStored tl
    → (tl' : TransactionsList) × (read_txs (length ts) (txs_bytes ts ++ rest) tl ≡ some tl')
      × Holds (tl.transactions ++ ts) tl'
unfolding read_txs txs_bytes
read_txs-Holds [] rest tl good ok =
    (tl, refl, record { stored = ok; items = sym (append-nil tl.transactions) })
read_txs-Holds (t ∷ ts) rest tl good ok =
    let (tl1, added, held) = add_tx-Holds tl t ok good.0 in
    let (tl2, read, held2) = read_txs-Holds ts rest tl1 good.1 held.stored in
    (
      tl2,
      rw
          (
            append_assoc (txs_to_bin t) (txs_bytes ts) rest,
            bin_to_txs-txs_to_bin t (txs_bytes ts ++ rest) good.0,
            added,
            drop-txs_to_bin t (txs_bytes ts ++ rest),
          )
          read,
      record {
        stored = held2.stored;
        items =
            held2.items ∙ ap (λ l. l ++ ts) held.items ∙ append_assoc tl.transactions (t ∷ []) ts;
      },
    )

-- What `blockToBin` wrote of a well-formed block, `binToBlock` reads back, whatever bytes follow:
-- the same block, its list in perhaps another capacity.
pub bin_to_block-block_to_bin :
    (b : Block) (rest : List ℕ)
    → IsBlock b
    → (b' : Block) × (bin_to_block (block_to_bin b ++ rest) ≡ some b') × SameBlock b b'
unfolding block_to_bin bin_to_block
bin_to_block-block_to_bin b rest ok =
    let (tl, read, held) =
      read_txs-Holds b.tl.transactions rest init_list_txs ok.stored.each init-IsStored in
    (
      record b { tl = tl },
      simp append_assoc (
          rw (
            fetch_ull-le_bytes (size b.tl) _ ok.count,
            fetch-append 32 b.previus_hash _ ok.previus_size,
            fetch-append 32 b.block_hash _ ok.hash_size,
            fetch_ull-le_bytes b.proof _ ok.proof,
            fetch_ull-le_bytes b.time _ ok.time,
            read,
          )),
      record { same = refl; items = held },
    )

pub SameBlock-size :
    {b b' : Block} → SameBlock b b' → get_size_of_blockbin b' ≡ get_size_of_blockbin b
unfolding get_size_of_blockbin
SameBlock-size h = ap (λ ts. 32 * 2 + 8 + 8 + 8 + txs_sizes ts) h.items.items

-- The first word of a block is the number of its transactions.
pub block_first_word :
    (b : Block) (rest : List ℕ)
    → IsBlock b
    → (after : List ℕ) × (fetch_ull (block_to_bin b ++ rest) ≡ some (size b.tl, after))
unfolding block_to_bin
block_first_word b rest ok =
    let fields =
      b.previus_hash
      ++ (b.block_hash
          ++ (le_bytes 8 b.proof ++ (le_bytes 8 b.time ++ txs_bytes b.tl.transactions))) in
    (
      fields ++ rest,
      rw (append_assoc (le_bytes 8 (size b.tl)) fields rest)
          (fetch_ull-le_bytes (size b.tl) (fields ++ rest) ok.count),
    )
