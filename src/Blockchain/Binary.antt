-- ===== src/Blockchain/Binary.antt =====
-- `blockchainToBin`, `binToBlockchain`, and the file of the saved chain.
use tek.Prelude.{
  ℕ, ◌-◌, ◌≡◌, refl, ◌∙◌, sym, some, List, [], ◌∷◌, ◌++◌, append_assoc, arith, length, drop,
  drop-append, take_all, replicate, All,
}
use tek.Bytes.{IsUll, le_bytes, fetch_ull}
use tek.Bytes.Words.{fetch_ull-le_bytes}
use tek.Block.{Block, get_size_of_blockbin, block_to_bin}
use tek.Block.Binary.{
  IsBlock, SameBlock, SameBlock-size, length-block_to_bin, bin_to_block-block_to_bin,
  block_first_word,
}
use tek.Blockchain.{
  Blockchain, blocks_number, blocks_bytes, blockchain_to_bin, read_blocks, bin_to_blockchain,
  save_blockchain, load_blockchain,
}

-- The same blocks in the same order.
abbrev pub SameBlocks : List Block → List Block → Type 0
SameBlocks [] [] = Unit {0}
SameBlocks [] (c ∷ cs) = ⊥
SameBlocks (b ∷ bs) [] = ⊥
SameBlocks (b ∷ bs) (c ∷ cs) = SameBlock b c × SameBlocks bs cs

drop-block_to_bin :
    (b b' : Block) (rest : List ℕ)
    → IsBlock b
    → SameBlock b b'
    → drop (get_size_of_blockbin b') (block_to_bin b ++ rest) ≡ rest
drop-block_to_bin b b' rest ok same =
    let e : get_size_of_blockbin b' ≡ length (block_to_bin b) =
      SameBlock-size same ∙ sym (length-block_to_bin b ok) in
    rw e (drop-append (block_to_bin b) rest)

read_blocks-SameBlocks :
    (bs : List Block) (rest : List ℕ)
    → All IsBlock bs
    → (cs : List Block) × (read_blocks (length bs) (blocks_bytes bs ++ rest) ≡ some cs)
      × SameBlocks bs cs
unfolding read_blocks blocks_bytes
read_blocks-SameBlocks [] rest ok = ([], refl, tt)
read_blocks-SameBlocks (b ∷ bs) rest ok =
    let (c, read, same) = bin_to_block-block_to_bin b (blocks_bytes bs ++ rest) ok.0 in
    let (cs, more, others) = read_blocks-SameBlocks bs rest ok.1 in
    let (after, word) = block_first_word b (blocks_bytes bs ++ rest) ok.0 in
    (
      c ∷ cs,
      rw (
        append_assoc (block_to_bin b) (blocks_bytes bs) rest,
        word,
        read,
        drop-block_to_bin b c (blocks_bytes bs ++ rest) ok.0 same,
        more,
      ),
      (same, others),
    )

drop_word : (v : ℕ) (l : List ℕ) → drop 8 (le_bytes 8 v ++ l) ≡ l
unfolding le_bytes
drop_word v l = refl

module _ (bc : Blockchain) (ok : All IsBlock bc.blocks) (count : IsUll (blocks_number bc)) where
  -- What `blockchainToBin` wrote of fewer than 2 ^ 64 well-formed blocks, `binToBlockchain` reads
  -- back, whatever bytes follow: the same blocks, in lists of perhaps another capacity.
  pub bin_to_blockchain-blockchain_to_bin :
      (rest : List ℕ)
      → (bc' : Blockchain) × (bin_to_blockchain (blockchain_to_bin bc ++ rest) ≡ some bc')
        × SameBlocks bc.blocks bc'.blocks
  unfolding bin_to_blockchain blockchain_to_bin
  bin_to_blockchain-blockchain_to_bin rest =
      let (cs, read, same) = read_blocks-SameBlocks bc.blocks rest ok in
      (
        record { blocks = cs },
        rw (
          append_assoc (le_bytes 8 (blocks_number bc)) (blocks_bytes bc.blocks) rest,
          fetch_ull-le_bytes (blocks_number bc) _ count,
          read,
        ),
        same,
      )

  -- `loadBlockchain` reads back the chain of fewer than 2 ^ 64 well-formed blocks that
  -- `saveBlockchain` saved in fewer than 2 ^ 64 bytes.
  pub load_blockchain-save_blockchain :
      IsUll (length (blockchain_to_bin bc))
      → (bc' : Blockchain) × (load_blockchain (save_blockchain bc) ≡ some bc')
        × SameBlocks bc.blocks bc'.blocks
  unfolding load_blockchain save_blockchain
  load_blockchain-save_blockchain fits =
      let bin = blockchain_to_bin bc in
      let (bc', read, same) = bin_to_blockchain-blockchain_to_bin [] in
      let size = length bin in
      let word : fetch_ull ((le_bytes 8 size ++ bin) ++ replicate 8 0)
          ≡ some (size, bin ++ replicate 8 0) =
        rw (append_assoc (le_bytes 8 size) bin (replicate 8 0))
          (fetch_ull-le_bytes size (bin ++ replicate 8 0) fits) in
      let rest : drop 8 (le_bytes 8 size ++ bin) ≡ bin = drop_word size bin in
      let none_left : size - size ≡ 0 = omega arith in
      (bc', rw (word, rest, take_all size bin (omega arith), none_left) read, same)
