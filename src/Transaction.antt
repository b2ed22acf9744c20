-- ===== src/Transaction.antt =====
-- Projet/Block/transactions.c and transactions.h. Allocation always succeeds.
pub mod Binary
pub mod Store
pub mod Compare
pub mod Decode
pub mod Printed
use tek.Prelude.{
  ℕ, zero, suc, ◌+◌, ◌-◌, ◌*◌, ◌^◌, Bool, true, false, ◌&&◌, Option, none, some, List, [], ◌∷◌,
  ◌++◌, ltb, leb, ◌==◌, if◌then◌else◌, ◌>>=◌, length, take, drop,
}
use tek.Bytes.{block, decimal, fetch, fetch_ull, le_bytes, memcmp, signed_pad, until_nul, zero_pad}

-- `TRANSACTION`. The strings are what stands before their NUL; `time` is a bit pattern.
pub record Transaction : Type 0 where
  pub sender : List ℕ
  pub receiver : List ℕ
  pub amount : ℕ
  pub time : ℕ

-- `TRANSACTIONS_LIST`: the `size` transactions that are stored, and the slots allocated.
pub record TransactionsList : Type 0 where
  pub transactions : List Transaction
  pub capacity : ℕ

abbrev pub size : TransactionsList → ℕ
size tl = length tl.transactions

-- `CreateTxs`, the clock showing `now`: the strings are copied up to their NUL.
unfoldable pub create_txs : (now amount : ℕ) (sender receiver : List ℕ) → Transaction
create_txs now amount sender receiver = record {
  sender = until_nul sender;
  receiver = until_nul receiver;
  amount = amount;
  time = now;
}

unfoldable pub txs_equal : Transaction → Transaction → Option Bool
txs_equal t1 t2 =
    if (t1.amount == t2.amount) && (t1.time == t2.time)
    then (do
      senders ← memcmp (length t1.sender + 1) (block t1.sender) (block t2.sender)
      if senders
          then memcmp (length t1.receiver + 1) (block t1.receiver) (block t2.receiver)
          else some false)
    else some false

-- What the format `"%s%s%014llu%011ld"` prints.
abbrev pub txs_text : Transaction → List ℕ
txs_text txs =
    txs.sender ++ (txs.receiver ++ (zero_pad 14 (decimal txs.amount) ++ signed_pad 11 txs.time))

-- `txsToString`. The buffer has room for 14 digits of amount and 11 of time; `none` is a `sprintf`
-- past its end.
unfoldable pub txs_to_string : Transaction → Option (List ℕ)
txs_to_string txs =
    let size = length txs.sender + length txs.receiver + 14 + 11 + 1 in
    if leb (length (txs_text txs) + 1) size then some (txs_text txs) else none

-- The loop of `tlToString`. Its buffer grows by the length of each text.
unfoldable pub list_to_string : List Transaction → Option (List ℕ)
unfolding txs_to_string
list_to_string [] = some []
list_to_string (t ∷ ts) = do
  txs_buf ← txs_to_string t
  res ← list_to_string ts
  some (txs_buf ++ res)

unfoldable pub tl_to_string : TransactionsList → Option (List ℕ)
unfolding list_to_string
tl_to_string tl = list_to_string tl.transactions

-- The size of an object in memory does not wrap.
unfoldable pub get_size_of_txsbin : Transaction → ℕ
get_size_of_txsbin t = length t.sender + length t.receiver + 8 * 2 + (8 + 8) + 8

unfoldable pub txs_to_bin : Transaction → List ℕ
unfolding get_size_of_txsbin
txs_to_bin t =
    le_bytes 8 (get_size_of_txsbin t - 8)
    ++ (le_bytes 8 (length t.sender)
        ++ (t.sender
            ++ (le_bytes 8 (length t.receiver)
                ++ (t.receiver ++ (le_bytes 8 t.amount ++ le_bytes 8 t.time)))))

-- `binToTxs`. The lengths come from the bytes, and nothing checks them: a copy from outside the
-- object is `none`.
unfoldable pub bin_to_txs : List ℕ → Option Transaction
bin_to_txs bin = do
  (total, bin1) ← fetch_ull bin
  (sender_size, bin2) ← fetch_ull bin1
  (sender, bin3) ← fetch sender_size bin2
  (receiver_size, bin4) ← fetch_ull bin3
  (receiver, bin5) ← fetch receiver_size bin4
  (amount, bin6) ← fetch_ull bin5
  (time, bin7) ← fetch_ull bin6
  some (record {
    sender = until_nul sender;
    receiver = until_nul receiver;
    amount = amount;
    time = time;
  })

abbrev pub init_list_txs : TransactionsList
init_list_txs = record { transactions = []; capacity = 1 }

-- `addTx`: a full array is doubled, and the copy is stored behind the last transaction; `none` is a
-- store outside the array.
unfoldable pub add_tx : TransactionsList → Transaction → Option TransactionsList
unfolding create_txs
add_tx tl t =
    let capacity = if leb tl.capacity (size tl) then tl.capacity * 2 else tl.capacity in
    let newtxs = record (create_txs t.time t.amount t.sender t.receiver) { time = t.time } in
    if ltb (size tl) capacity
    then some (record { transactions = tl.transactions ++ newtxs ∷ []; capacity = capacity })
    else none

-- `for (…) addTx(&new_tl, …)` over transactions of another list.
unfoldable pub add_all : TransactionsList → List Transaction → Option TransactionsList
unfolding add_tx
add_all tl [] = some tl
add_all tl (t ∷ ts) = do tl' ← add_tx tl t; add_all tl' ts

-- The loop of `hasSendedTxs`.
unfoldable pub has_sended : List ℕ → List Transaction → Option Bool
has_sended address [] = some false
has_sended address (t ∷ ts) =
    let more = has_sended address ts in
    let cmp_size =
      if ltb (length t.sender) (length address) then length address else length t.sender in
    memcmp cmp_size (block t.sender) (block address) >>= λ same. if same then some true else more

unfoldable pub has_sended_txs : List ℕ → TransactionsList → Option Bool
unfolding has_sended
has_sended_txs address tl = has_sended address tl.transactions

-- `removeTxsList`: the transactions before `start` and from `end` on, in a new list. A loop up to a
-- `start` beyond the list reads outside it.
unfoldable pub remove_txs_list : TransactionsList → (start end : ℕ) → Option TransactionsList
unfolding add_all
remove_txs_list tl start end = if ltb (size tl) start then none else (do
  new_tl ← add_all init_list_txs (take start tl.transactions)
  add_all new_tl (drop end tl.transactions))

unfoldable pub clear_txs_list : TransactionsList → TransactionsList
clear_txs_list tl = init_list_txs
