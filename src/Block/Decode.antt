-- ===== src/Block/Decode.antt =====
-- Whatever `binToBlock` reads from bytes is well formed.
use tek.Prelude.{
  ℕ, zero, suc, ◌+◌, ◌≡◌, ap, some, List, [], ◌∷◌, arith, >>=-eq-some, along, length, length-append,
  length-drop, drop, All,
}
use tek.Bytes.{IsByte, IsUll, fetch, fetch_ull}
use tek.Hash.{IsHash}
use tek.Transaction.{
  Transaction, TransactionsList, size, init_list_txs, get_size_of_txsbin, bin_to_txs,
}
use tek.Transaction.Decode.{fetch-Fetched, fetch_ull-FetchedUll, bin_to_txs-IsTransaction}
use tek.Transaction.Store.{IsStored, init-IsStored, add_tx-Holds}
use tek.Block.{Block, read_txs, bin_to_block}
use tek.Block.Binary.{IsBlock}

-- What is known of a block that came over the network.
pub record IsReceived (b : Block) : Type 0 where
  pub block : IsBlock b
  pub previus : IsHash b.previus_hash
  pub hash : IsHash b.block_hash

pub All-IsByte-drop : (n : ℕ) (bs : List ℕ) → All IsByte bs → All IsByte (drop n bs)
All-IsByte-drop zero bs h = h
All-IsByte-drop (suc n) [] h = tt
All-IsByte-drop (suc n) (b ∷ bs) h = All-IsByte-drop n bs h.1

read_txs-IsStored :
    (n : ℕ) (bin : List ℕ) (tl tl' : TransactionsList)
    → All IsByte bin
    → IsUll (length bin)
    → IsStored tl
    → read_txs n bin tl ≡ some tl'
    → IsStored tl' × (size tl' ≡ size tl + n)
unfolding read_txs
read_txs-IsStored zero bin tl tl' h fits ok e =
    along (λ (l : TransactionsList). IsStored l × (size l ≡ size tl + 0)) e (ok, omega arith)
read_txs-IsStored (suc n) bin tl tl' h fits ok e =
    let (t, read, k1) = >>=-eq-some (bin_to_txs bin) _ e in
    let (good, shorter) = bin_to_txs-IsTransaction bin t h fits read in
    let (tl1, added, held) = add_tx-Holds tl t ok good in
    let k2 = rw added at k1 in
    let rest = drop (get_size_of_txsbin t) bin in
    let less : IsUll (length rest) = omega (arith, length-drop (get_size_of_txsbin t) bin) in
    let (stored, count) =
      read_txs-IsStored n rest tl1 tl' (All-IsByte-drop _ bin h) less held.stored k2 in
    (
      stored,
      omega (
        arith,
        count,
        ap (λ (l : List Transaction). length l) held.items,
        length-append tl.transactions (t ∷ []),
      ),
    )

pub bin_to_block-IsReceived :
    (bin : List ℕ) (b : Block)
    → All IsByte bin
    → IsUll (length bin)
    → bin_to_block bin ≡ some b
    → IsReceived b
unfolding bin_to_block
bin_to_block-IsReceived bin b h fits e =
    let ((nb_txs, bin1), e1, k1) = >>=-eq-some (fetch_ull bin) _ e in
    let f1 = fetch_ull-FetchedUll bin nb_txs bin1 h e1 in
    let ((previus, bin2), e2, k2) = >>=-eq-some (fetch 32 bin1) _ k1 in
    let f2 = fetch-Fetched 32 bin1 previus bin2 f1.rest_bytes e2 in
    let ((hash, bin3), e3, k3) = >>=-eq-some (fetch 32 bin2) _ k2 in
    let f3 = fetch-Fetched 32 bin2 hash bin3 f2.rest_bytes e3 in
    let ((proof, bin4), e4, k4) = >>=-eq-some (fetch_ull bin3) _ k3 in
    let f4 = fetch_ull-FetchedUll bin3 proof bin4 f3.rest_bytes e4 in
    let ((time, bin5), e5, k5) = >>=-eq-some (fetch_ull bin4) _ k4 in
    let f5 = fetch_ull-FetchedUll bin4 time bin5 f4.rest_bytes e5 in
    let (tl, e6, k6) = >>=-eq-some (read_txs nb_txs bin5 init_list_txs) _ k5 in
    let less : IsUll (length bin5) = omega (arith, f1.left, f2.left, f3.left, f4.left, f5.left) in
    let (stored, count) =
      read_txs-IsStored nb_txs bin5 init_list_txs tl f5.rest_bytes less init-IsStored e6 in
    along IsReceived k6 (record {
      block = record {
        previus_size = f2.size;
        hash_size = f3.size;
        proof = f4.ull;
        time = f5.ull;
        stored = stored;
        count = omega (arith, count, f1.ull);
      };
      previus = record { size = f2.size; bytes = f2.front_bytes };
      hash = record { size = f3.size; bytes = f3.front_bytes };
    })
