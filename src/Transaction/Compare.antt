-- ===== src/Transaction/Compare.antt =====
-- `TxsEqual` and `hasSendedTxs` on well-formed transactions: no read leaves a string, and the
-- answers are those of equality.
use tek.Prelude.{ℕ, ◌≡◌, refl, Bool, true, false, ◌&&◌, ◌||◌, some, List, [], ◌∷◌, arith, All, ◌==◌}
use tek.Bytes.{IsText}
use tek.Bytes.Text.{text_eq, text_eq_refl, text_eq→eq, memcmp-eq, memcmp-max}
use tek.Transaction.{Transaction, TransactionsList, txs_equal, has_sended, has_sended_txs}
use tek.Transaction.Binary.{IsTransaction}

-- Field by field.
unfoldable pub same_txs : Transaction → Transaction → Bool
same_txs t1 t2 =
    ((t1.amount == t2.amount) && (t1.time == t2.time))
    && (text_eq t1.sender t2.sender && text_eq t1.receiver t2.receiver)

-- On well-formed transactions, `TxsEqual` says exactly whether they have the same fields.
pub txs_equal-same :
    (t1 t2 : Transaction)
    → IsTransaction t1
    → IsTransaction t2
    → txs_equal t1 t2 ≡ some (same_txs t1 t2)
unfolding txs_equal same_txs
txs_equal-same t1 t2 h1 h2 = ground (
  arith,
  memcmp-eq t1.sender t2.sender h1.sender h2.sender,
  memcmp-eq t1.receiver t2.receiver h1.receiver h2.receiver,
)

pub same_txs→eq : (t1 t2 : Transaction) → same_txs t1 t2 ≡ true → t1 ≡ t2
unfolding same_txs
same_txs→eq t1 t2 h =
    ground (arith, text_eq→eq t1.sender t2.sender, text_eq→eq t1.receiver t2.receiver)

pub same_txs_refl : (t : Transaction) → same_txs t t ≡ true
unfolding same_txs
same_txs_refl t = ground (arith, text_eq_refl t.sender, text_eq_refl t.receiver)

-- Some transaction of the list was sent by the address.
unfoldable pub sent_by : List ℕ → List Transaction → Bool
sent_by address [] = false
sent_by address (t ∷ ts) = text_eq t.sender address || sent_by address ts

pub has_sended-sent_by :
    (address : List ℕ) (ts : List Transaction)
    → IsText address
    → All IsTransaction ts
    → has_sended address ts ≡ some (sent_by address ts)
unfolding has_sended sent_by
has_sended-sent_by address [] ha hts = refl
has_sended-sent_by address (t ∷ ts) ha hts =
    rw (memcmp-max t.sender address hts.0.sender ha, has_sended-sent_by address ts ha hts.1)
      (ground arith)

-- On well-formed transactions, `hasSendedTxs` says exactly whether the address, a string, sent one
-- of the transactions.
pub has_sended_txs-sent_by :
    (address : List ℕ) (tl : TransactionsList)
    → IsText address
    → All IsTransaction tl.transactions
    → has_sended_txs address tl ≡ some (sent_by address tl.transactions)
unfolding has_sended_txs
has_sended_txs-sent_by address tl = has_sended-sent_by address tl.transactions
