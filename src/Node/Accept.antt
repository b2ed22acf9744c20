-- ===== src/Node/Accept.antt =====
-- Transactions that reach the node: which are admitted, and what then changes.
use tek.Prelude.{
  ℕ, ◌≡◌, refl, Bool, false, not, ◌||◌, some, List, [], ◌∷◌, ◌++◌, arith, ltb, if◌then◌else◌,
}
use tek.Bytes.Text.{text_eq_comm}
use tek.Transaction.{Transaction, TransactionsList, get_size_of_txsbin, txs_to_bin}
use tek.Transaction.Binary.{IsTransaction, length-txs_to_bin}
use tek.Transaction.Compare.{sent_by, has_sended_txs-sent_by}
use tek.Transaction.Store.{IsStored, Holds, add_tx-Holds}
use tek.Blockchain.Money.{balance, enough_money-balance}
use tek.Blockchain.Pool.{AllWellFormed}
use tek.Message.{Message, type_txs}
use tek.Message.Binary.{create_message-whole}
use tek.Node.{Node, accept_txs}

-- The sender has nothing pending, and the balance covers the amount.
unfoldable pub admits : Node → Transaction → Bool
admits node t =
    if sent_by t.sender node.tl.transactions
    then false
    else not (ltb (balance t.sender node.bc) t.amount)

-- The message that passes a transaction on.
abbrev pub txs_message : Transaction → Message
txs_message t = record { type = type_txs; size_data = get_size_of_txsbin t; payload = txs_to_bin t }

-- On well-formed transactions: one that is admitted, its sender having nothing pending and enough
-- money, is stored behind the pending ones and sent on; any other changes nothing.
pub accept_txs-admits :
    (node : Node) (t : Transaction)
    → AllWellFormed node.bc.blocks
    → IsStored node.tl
    → IsTransaction t
    → (tl : TransactionsList) × (accept_txs node t
        ≡ some (
            if admits node t
            then record node { tl = tl; outgoing = node.outgoing ++ txs_message t ∷ [] }
            else node))
      × Holds (node.tl.transactions ++ t ∷ []) tl
unfolding accept_txs admits
accept_txs-admits node t hbc stored ok =
    let (tl, added, held) = add_tx-Holds node.tl t stored ok in
    let message =
      create_message-whole type_txs (get_size_of_txsbin t) (txs_to_bin t) (length-txs_to_bin t) in
    (
      tl,
      rw
          (
            has_sended_txs-sent_by t.sender node.tl ok.sender stored.each,
            enough_money-balance t.sender ok.sender t.amount node.bc hbc,
            added,
            message,
          )
          (ground arith),
      held,
    )

-- No two pending transactions have one sender.
abbrev pub OneEach : List Transaction → Type 0
OneEach [] = Unit {0}
OneEach (t ∷ ts) = (sent_by t.sender ts ≡ false) × OneEach ts

sent_by-append :
    (a : List ℕ) (ts us : List Transaction) → sent_by a (ts ++ us) ≡ (sent_by a ts || sent_by a us)
unfolding sent_by
sent_by-append a [] us = refl
sent_by-append a (t ∷ ts) us = ground (arith, sent_by-append a ts us)

pub OneEach-append :
    (ts : List Transaction) (t : Transaction)
    → OneEach ts
    → sent_by t.sender ts ≡ false
    → OneEach (ts ++ t ∷ [])
unfolding sent_by
OneEach-append [] t h e = (refl, tt)
OneEach-append (u ∷ ts) t h e = (
  ground (arith, sent_by-append u.sender ts (t ∷ []), text_eq_comm t.sender u.sender, h.0),
  OneEach-append ts t h.1 (ground arith),
)
