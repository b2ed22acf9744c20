-- ===== src/Blockchain/Decode.antt =====
-- Whatever `binToBlockchain` reads from bytes is made of well-formed blocks.
use tek.Prelude.{
  ℕ, zero, suc, ◌≡◌, refl, some, List, arith, >>=-eq-some, along, length, length-drop, drop, All,
}
use tek.Bytes.{IsByte, IsUll, fetch_ull}
use tek.Transaction.Decode.{fetch_ull-FetchedUll}
use tek.Block.{Block, get_size_of_blockbin, bin_to_block}
use tek.Block.Decode.{IsReceived, All-IsByte-drop, bin_to_block-IsReceived}
use tek.Blockchain.{Blockchain, blocks_number, read_blocks, bin_to_blockchain}

read_blocks-IsReceived :
    (n : ℕ) (bin : List ℕ) (bs : List Block)
    → All IsByte bin
    → IsUll (length bin)
    → read_blocks n bin ≡ some bs
    → All IsReceived bs × (length bs ≡ n)
unfolding read_blocks
read_blocks-IsReceived zero bin bs h fits e =
    along (λ (l : List Block). All IsReceived l × (length l ≡ 0)) e (tt, refl)
read_blocks-IsReceived (suc n) bin bs h fits e =
    let (word, e1, k1) = >>=-eq-some (fetch_ull bin) _ e in
    let (b, e2, k2) = >>=-eq-some (bin_to_block bin) _ k1 in
    let good = bin_to_block-IsReceived bin b h fits e2 in
    let rest = drop (get_size_of_blockbin b) bin in
    let less : IsUll (length rest) = omega (arith, length-drop (get_size_of_blockbin b) bin) in
    let (cs, e3, k3) = >>=-eq-some (read_blocks n rest) _ k2 in
    let (more, count) = read_blocks-IsReceived n rest cs (All-IsByte-drop _ bin h) less e3 in
    along (λ (l : List Block). All IsReceived l × (length l ≡ suc n)) k3 ((good, more), omega arith)

-- Whatever bytes `binToBlockchain` reads a chain from, fewer than 2 ^ 64, its blocks are well formed.
pub bin_to_blockchain-IsReceived :
    (bin : List ℕ) (bc : Blockchain)
    → All IsByte bin
    → IsUll (length bin)
    → bin_to_blockchain bin ≡ some bc
    → All IsReceived bc.blocks × IsUll (blocks_number bc)
unfolding bin_to_blockchain
bin_to_blockchain-IsReceived bin bc h fits e =
    let ((n, rest), e1, k1) = >>=-eq-some (fetch_ull bin) _ e in
    let f = fetch_ull-FetchedUll bin n rest h e1 in
    let less : IsUll (length rest) = omega (arith, f.left) in
    let (bs, e2, k2) = >>=-eq-some (read_blocks n rest) _ k1 in
    let (good, count) = read_blocks-IsReceived n rest bs f.rest_bytes less e2 in
    along (λ (c : Blockchain). All IsReceived c.blocks × IsUll (blocks_number c)) k2
      (good, omega (arith, f.ull, count))
