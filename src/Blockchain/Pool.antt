-- ===== src/Blockchain/Pool.antt =====
-- `findTxsInBc` and `updateTlWithBc`.
use tek.Prelude.{
  ◌≡◌, refl, ap, ◌∙◌, sym, Bool, false, not, ◌||◌, Option, some, List, [], ◌∷◌, ◌++◌, append_assoc,
  append-nil, arith, ◌>>=◌, drop, ltb, if◌then◌else◌, All, Bool-cases, inl, inr,
}
use tek.Transaction.{Transaction, TransactionsList, init_list_txs}
use tek.Transaction.Binary.{IsTransaction}
use tek.Transaction.Compare.{same_txs, txs_equal-same}
use tek.Transaction.Store.{IsStored, Holds, init-IsStored, add_tx-Holds}
use tek.Block.{Block}
use tek.Blockchain.{
  Blockchain, find_txs_in_block, find_txs_in_blocks, find_txs_in_bc, enough_money, update_loop,
  update_tl_with_bc,
}
use tek.Blockchain.Money.{balance, enough_money-balance}

-- The transaction is one of these.
unfoldable pub occurs : Transaction → List Transaction → Bool
occurs t [] = false
occurs t (u ∷ us) = same_txs t u || occurs t us

unfoldable pub in_blocks : Transaction → List Block → Bool
unfolding occurs
in_blocks t [] = false
in_blocks t (b ∷ bs) = occurs t b.tl.transactions || in_blocks t bs

abbrev pub AllWellFormed : List Block → Type 0
AllWellFormed = All (λ b. All IsTransaction b.tl.transactions)

find_txs_in_block-occurs :
    (t : Transaction) (us : List Transaction)
    → IsTransaction t
    → All IsTransaction us
    → find_txs_in_block t us ≡ some (occurs t us)
unfolding find_txs_in_block occurs
find_txs_in_block-occurs t [] h hs = refl
find_txs_in_block-occurs t (u ∷ us) h hs =
    rw (txs_equal-same t u h hs.0, find_txs_in_block-occurs t us h hs.1) (ground arith)

find_txs_in_blocks-in_blocks :
    (t : Transaction) (bs : List Block)
    → IsTransaction t
    → AllWellFormed bs
    → find_txs_in_blocks t bs ≡ some (in_blocks t bs)
unfolding find_txs_in_blocks in_blocks
find_txs_in_blocks-in_blocks t [] h hs = refl
find_txs_in_blocks-in_blocks t (b ∷ bs) h hs =
    rw
      (
        find_txs_in_block-occurs t b.tl.transactions h hs.0,
        find_txs_in_blocks-in_blocks t bs h hs.1,
      )
      (ground arith)

All-tail : (bs : List Block) → AllWellFormed bs → AllWellFormed (drop 1 bs)
All-tail [] h = tt
All-tail (b ∷ bs) h = h.1

-- On well-formed transactions, `findTxsInBc` says exactly whether a block behind the first holds
-- the transaction.
pub find_txs_in_bc-in_blocks :
    (t : Transaction) (bc : Blockchain)
    → IsTransaction t
    → AllWellFormed bc.blocks
    → find_txs_in_bc t bc ≡ some (in_blocks t (drop 1 bc.blocks))
unfolding find_txs_in_bc
find_txs_in_bc-in_blocks t bc h hs =
    find_txs_in_blocks-in_blocks t (drop 1 bc.blocks) h (All-tail bc.blocks hs)

-- What stays pending: a transaction that is in no block behind the first, and that its sender's
-- balance covers.
unfoldable pub stays : Blockchain → Transaction → Bool
stays bc t =
    if in_blocks t (drop 1 bc.blocks) then false else not (ltb (balance t.sender bc) t.amount)

unfoldable pub pending : Blockchain → List Transaction → List Transaction
unfolding stays
pending bc [] = []
pending bc (t ∷ ts) = let rest = pending bc ts in if stays bc t then t ∷ rest else rest

-- One round of the loop goes on with `stays`.
round-stays :
    (bc : Blockchain) (t : Transaction) (go_on : Bool → Option TransactionsList)
    → AllWellFormed bc.blocks
    → IsTransaction t
    → (find_txs_in_bc t bc >>= λ found.
        (if found then some false else enough_money t.sender t.amount bc) >>= go_on)
      ≡ go_on (stays bc t)
unfolding stays
round-stays bc t go_on hbc ok =
    let money = enough_money-balance t.sender ok.sender t.amount bc hbc in
    rw (find_txs_in_bc-in_blocks t bc ok hbc, money)
      (elim (Bool-cases (in_blocks t (drop 1 bc.blocks))) [ inl e ↦ rw e | inr e ↦ rw e ])

update_loop-Holds :
    (bc : Blockchain) (ts : List Transaction) (tl : TransactionsList)
    → AllWellFormed bc.blocks
    → All IsTransaction ts
    → IsStored tl
    → (tl' : TransactionsList) × (update_loop bc ts tl ≡ some tl')
      × Holds (tl.transactions ++ pending bc ts) tl'
unfolding update_loop pending
update_loop-Holds bc [] tl hbc hs ok =
    (tl, refl, record { stored = ok; items = sym (append-nil tl.transactions) })
update_loop-Holds bc (t ∷ ts) tl hbc hs ok =
    let (tl1, added, held) = add_tx-Holds tl t ok hs.0 in
    let (more, run, holds) = update_loop-Holds bc ts tl1 hbc hs.1 held.stored in
    let (same, run0, holds0) = update_loop-Holds bc ts tl hbc hs.1 ok in
    elim (Bool-cases (stays bc t)) [
      | inl keep ↦ (
        more,
        round-stays bc t _ hbc hs.0 ∙ rw (keep, added) run,
        record {
          stored = holds.stored;
          items =
              holds.items
              ∙ ap (λ l. l ++ pending bc ts) held.items
              ∙ append_assoc tl.transactions (t ∷ []) (pending bc ts)
              ∙ rw keep;
        },
      )
      | inr drop ↦ (
        same,
        round-stays bc t _ hbc hs.0 ∙ rw drop run0,
        record { stored = holds0.stored; items = holds0.items ∙ rw drop },
      )
    ]

-- On well-formed transactions, `updateTlWithBc` keeps exactly the transactions that stay pending,
-- in their order: those in no block behind the first whose amount the sender's balance covers.
pub update_tl_with_bc-pending :
    (tl : TransactionsList) (bc : Blockchain)
    → AllWellFormed bc.blocks
    → IsStored tl
    → (tl' : TransactionsList) × (update_tl_with_bc tl bc ≡ some tl')
      × Holds (pending bc tl.transactions) tl'
unfolding update_tl_with_bc
update_tl_with_bc-pending tl bc hbc ok =
    update_loop-Holds bc tl.transactions init_list_txs hbc ok.each init-IsStored
