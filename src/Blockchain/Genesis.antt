-- ===== src/Blockchain/Genesis.antt =====
-- Projet/Block/blockchain.c: `createGenesis` and `initBlockchain`.
use tek.Prelude.{
  ℕ, zero, suc, ltb, ◌^◌, ◌<◌, ◌≡◌, refl, true, Option, some, List, [], ◌∷◌, arith, ◌>>=◌, All,
  replicate,
}
use tek.Bytes.{IsByte, IsText, IsUll, decimal, signed_pad, zero_pad}
use tek.Hash.{Sha, IsHash, digest-IsHash, sha256_block_size}
use tek.Mining.Threads.{created, thread_mining, mine_from_string}
use tek.Transaction.{Transaction, add_tx, create_txs, init_list_txs}
use tek.Transaction.Printed.{AllPrint, prints_small}
use tek.Block.{Block, init_block}
use tek.Block.Seal.{sum_of, seal, sum_text, sum_of-text}
use tek.Blockchain.{Blockchain}

-- The key that owns the first money.
abbrev pub genesis_key : List ℕ
genesis_key =
    b'M' ∷ b'F' ∷ b'w' ∷ b'w' ∷ b'D' ∷ b'Q' ∷ b'Y' ∷ b'J' ∷ b'K' ∷ b'o' ∷ b'Z' ∷ b'I' ∷ b'h' ∷ b'v'
    ∷ b'c' ∷ b'N' ∷ b'A' ∷ b'Q' ∷ b'E' ∷ b'B' ∷ b'B' ∷ b'Q' ∷ b'A' ∷ b'D' ∷ b'S' ∷ b'w' ∷ b'A'
    ∷ b'w' ∷ b'S' ∷ b'A' ∷ b'J' ∷ b'B' ∷ b'A' ∷ b'I' ∷ b'j' ∷ b'5' ∷ b'I' ∷ b'H' ∷ b'f' ∷ b'X'
    ∷ b'R' ∷ b'S' ∷ b's' ∷ b'L' ∷ b'B' ∷ b'o' ∷ b'b' ∷ b'V' ∷ b'o' ∷ b'z' ∷ b'W' ∷ b'y' ∷ b'c'
    ∷ b'3' ∷ b'b' ∷ b'q' ∷ b'3' ∷ b'A' ∷ b'8' ∷ b'l' ∷ b'n' ∷ b'X' ∷ b'S' ∷ b'd' ∷ b'N' ∷ b'Y'
    ∷ b'/' ∷ b'K' ∷ b'H' ∷ b'P' ∷ b'f' ∷ b'S' ∷ b'x' ∷ b'f' ∷ b'w' ∷ b'T' ∷ b'k' ∷ b'r' ∷ b'7'
    ∷ b't' ∷ b'U' ∷ b'k' ∷ b'6' ∷ b'I' ∷ b'O' ∷ b'G' ∷ b'5' ∷ b'O' ∷ b'4' ∷ b'R' ∷ b'n' ∷ b'8'
    ∷ b'a' ∷ b'b' ∷ b'e' ∷ b'A' ∷ b'i' ∷ b'N' ∷ b'v' ∷ b'B' ∷ b'V' ∷ b'6' ∷ b'N' ∷ b'Q' ∷ b'W'
    ∷ b'H' ∷ b'3' ∷ b'h' ∷ b'6' ∷ b'd' ∷ b'9' ∷ b'D' ∷ b'g' ∷ b'I' ∷ b'3' ∷ b's' ∷ b'D' ∷ b'd'
    ∷ b'8' ∷ b'C' ∷ b'A' ∷ b'w' ∷ b'E' ∷ b'A' ∷ b'A' ∷ b'Q' ∷ b'=' ∷ b'=' ∷ []

abbrev pub genesis_txs : ℕ → Transaction
unfolding create_txs
genesis_txs now = create_txs now 1000000 [] genesis_key

-- Up to the call of `mine_from_string`: the block, and the string to mine.
unfoldable pub start_genesis : Sha → (now : ℕ) → (junk : Block) → Option (Block × List ℕ)
unfolding init_block sum_of
start_genesis sha now junk = do
  tl ← add_tx init_list_txs (genesis_txs now)
  let genesis = record (init_block now junk) {
    tl = tl;
    previus_hash = replicate sha256_block_size 0;
  }
  sum ← sum_of sha genesis (signed_pad 11 now)
  some (genesis, sum)

-- `createGenesis`, whose one thread runs as the schedule says.
unfoldable pub create_genesis :
    Sha → (diff now : ℕ) → (junk : Block) → (slack : ℕ) → (schedule : List ℕ) → Option Block
unfolding start_genesis seal thread_mining mine_from_string
create_genesis sha diff now junk slack schedule = do
  (genesis, sum) ← start_genesis sha now junk
  m ← thread_mining sha diff sum 1 schedule created
  proof ← mine_from_string sha diff sum 1 slack m
  seal sha genesis proof

unfoldable pub init_blockchain :
    Sha → (diff now : ℕ) → (junk : Block) → (slack : ℕ) → (schedule : List ℕ) → Option Blockchain
unfolding create_genesis
init_blockchain sha diff now junk slack schedule = do
  genesis ← create_genesis sha diff now junk slack schedule
  some (record { blocks = genesis ∷ [] })

-- The block before it has its proof.
abbrev pub unsealed : (now : ℕ) → Block → Block
unsealed now junk = record junk {
  time = now;
  previus_hash = replicate 32 0;
  tl = record { transactions = genesis_txs now ∷ []; capacity = init_list_txs.capacity };
}

pub zeros-IsHash : IsHash (replicate 32 0)
zeros-IsHash = record { size = refl; bytes = go 32 }
  where
    go : (n : ℕ) → All IsByte (replicate n 0)
    go zero = tt
    go (suc n) = (omega arith, go n)

genesis_txs-AllPrint : (now : ℕ) → now < 10 ^ 11 → AllPrint (genesis_txs now ∷ [])
unfolding genesis_txs
genesis_txs-AllPrint now soon = (prints_small (genesis_txs now) (omega arith) soon, tt)

module _ (sha : Sha) (diff now : ℕ) (junk : Block) (slack : ℕ) (soon : now < 10 ^ 11) where
  start_genesis-unsealed :
      start_genesis sha now junk ≡ some (unsealed now junk, sum_text sha (unsealed now junk))
  unfolding start_genesis init_block add_tx signed_pad tek.Bytes.write_at tek.Bytes.until_nul
      tek.Hash.sha256_to_ascii
  start_genesis-unsealed =
      let sum =
        sum_of-text sha (unsealed now junk) zeros-IsHash soon (genesis_txs-AllPrint now soon) in
      let signed : ltb now (2 ^ 63) ≡ true = ground arith in rw (signed, sum) refl
