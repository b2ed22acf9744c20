-- ===== src/Transaction/Binary.antt =====
-- `txsToBin` and `binToTxs`.
use tek.Prelude.{ℕ, ◌-◌, ◌≡◌, refl, some, List, ◌++◌, append_assoc, arith, length, length-append}
use tek.Bytes.{IsText, IsUll}
use tek.Bytes.Words.{length-le_bytes, fetch-append, fetch_ull-le_bytes}
use tek.Bytes.Text.{until_nul-text}
use tek.Transaction.{Transaction, get_size_of_txsbin, txs_to_bin, bin_to_txs}

-- A transaction as the program builds it: strings, and numbers of 64 bits.
pub record IsTransaction (t : Transaction) : Type 0 where
  pub sender : IsText t.sender
  pub receiver : IsText t.receiver
  pub sender_size : IsUll (length t.sender)
  pub receiver_size : IsUll (length t.receiver)
  pub amount : IsUll t.amount
  pub time : IsUll t.time
  pub total : IsUll (get_size_of_txsbin t)

-- `txsToBin` fills its buffer to the last byte, and no further.
pub length-txs_to_bin : (t : Transaction) → length (txs_to_bin t) ≡ get_size_of_txsbin t
unfolding txs_to_bin get_size_of_txsbin
length-txs_to_bin t = omega (arith, length-append {0}, length-le_bytes)

-- What `txsToBin` wrote of a well-formed transaction, `binToTxs` reads back, whatever bytes
-- follow.
pub bin_to_txs-txs_to_bin :
    (t : Transaction) (rest : List ℕ) → IsTransaction t → bin_to_txs (txs_to_bin t ++ rest) ≡ some t
unfolding txs_to_bin bin_to_txs
bin_to_txs-txs_to_bin t rest ok = simp append_assoc (
    rw (
      fetch_ull-le_bytes (get_size_of_txsbin t - 8) _ (omega (arith, ok.total)),
      fetch_ull-le_bytes (length t.sender) _ ok.sender_size,
      fetch-append (length t.sender) t.sender _ refl,
      fetch_ull-le_bytes (length t.receiver) _ ok.receiver_size,
      fetch-append (length t.receiver) t.receiver _ refl,
      fetch_ull-le_bytes t.amount _ ok.amount,
      fetch_ull-le_bytes t.time _ ok.time,
      until_nul-text t.sender ok.sender,
      until_nul-text t.receiver ok.receiver,
    ))
