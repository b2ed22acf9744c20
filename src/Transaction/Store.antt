-- ===== src/Transaction/Store.antt =====
-- The transactions list: `addTx`, the loops that call it, and `removeTxsList`.
use tek.Prelude.{
  ℕ, zero, suc, ◌*◌, ◌≤◌, ◌<◌, ◌≡◌, refl, ap, ◌∙◌, sym, some, List, [], ◌∷◌, ◌++◌, append-nil,
  append_assoc, false, arith, length-append, All, All-append, take, drop, leb, ltb, if◌then◌else◌,
}
use tek.Bytes.Text.{until_nul-text}
use tek.Transaction.{
  Transaction, TransactionsList, size, create_txs, add_tx, add_all, init_list_txs, remove_txs_list,
}
use tek.Transaction.Binary.{IsTransaction}

-- The transactions fit the slots, there is a slot, and each transaction is well formed.
pub record IsStored (tl : TransactionsList) : Type 0 where
  pub fits : size tl ≤ tl.capacity
  pub room : 0 < tl.capacity
  pub each : All IsTransaction tl.transactions

pub init-IsStored : IsStored init_list_txs
init-IsStored = record { fits = omega arith; room = omega arith; each = tt }

-- A list with these transactions, in some number of slots.
pub record Holds (ts : List Transaction) (tl : TransactionsList) : Type 0 where
  pub stored : IsStored tl
  pub items : tl.transactions ≡ ts

-- On a well-formed list and transaction, `addTx` stores inside the array, and adds the transaction
-- behind the others.
pub add_tx-Holds :
    (tl : TransactionsList) (t : Transaction)
    → IsStored tl
    → IsTransaction t
    → (tl' : TransactionsList) × (add_tx tl t ≡ some tl') × Holds (tl.transactions ++ t ∷ []) tl'
unfolding add_tx create_txs
add_tx-Holds tl t ok good =
    let grown = if leb tl.capacity (size tl) then tl.capacity * 2 else tl.capacity in
    let wide : size tl < grown = ground (arith, ok.fits, ok.room) in
    (
      record { transactions = tl.transactions ++ t ∷ []; capacity = grown },
      rw (until_nul-text t.sender good.sender, until_nul-text t.receiver good.receiver)
          (ground arith),
      record {
        stored = record {
          fits = omega (arith, length-append tl.transactions (t ∷ []));
          room = omega arith;
          each = All-append IsTransaction tl.transactions (t ∷ []) ok.each (good, tt);
        };
        items = refl;
      },
    )

pub add_all-Holds :
    (tl : TransactionsList) (ts : List Transaction)
    → IsStored tl
    → All IsTransaction ts
    → (tl' : TransactionsList) × (add_all tl ts ≡ some tl') × Holds (tl.transactions ++ ts) tl'
unfolding add_all
add_all-Holds tl [] ok good =
    (tl, refl, record { stored = ok; items = sym (append-nil tl.transactions) })
add_all-Holds tl (t ∷ ts) ok good =
    let (tl1, added, held) = add_tx-Holds tl t ok good.0 in
    let (tl2, rest, held2) = add_all-Holds tl1 ts held.stored good.1 in
    (
      tl2,
      rw added rest,
      record {
        stored = held2.stored;
        items =
            held2.items ∙ ap (λ l. l ++ ts) held.items ∙ append_assoc tl.transactions (t ∷ []) ts;
      },
    )

All-take : (n : ℕ) (ts : List Transaction) → All IsTransaction ts → All IsTransaction (take n ts)
All-take zero ts h = tt
All-take (suc n) [] h = tt
All-take (suc n) (t ∷ ts) h = (h.0, All-take n ts h.1)

All-drop : (n : ℕ) (ts : List Transaction) → All IsTransaction ts → All IsTransaction (drop n ts)
All-drop zero ts h = h
All-drop (suc n) [] h = tt
All-drop (suc n) (t ∷ ts) h = All-drop n ts h.1

-- On a well-formed list and a `start` inside it, `removeTxsList` removes the transactions from
-- `start` up to, but not including, `end`.
pub remove_txs_list-Holds :
    (tl : TransactionsList) (start end : ℕ)
    → start ≤ size tl
    → IsStored tl
    → (tl' : TransactionsList) × (remove_txs_list tl start end ≡ some tl')
      × Holds (take start tl.transactions ++ drop end tl.transactions) tl'
unfolding remove_txs_list
remove_txs_list-Holds tl start end inside ok =
    let within : ltb (size tl) start ≡ false = ground arith in
    let front =
      add_all-Holds init_list_txs (take start tl.transactions) init-IsStored
        (All-take start tl.transactions ok.each) in
    let (tl1, added, held) = front in
    let (tl2, rest, held2) =
      add_all-Holds tl1 (drop end tl.transactions) held.stored
        (All-drop end tl.transactions ok.each) in
    (
      tl2,
      rw (within, added) rest,
      record {
        stored = held2.stored;
        items = held2.items ∙ ap (λ l. l ++ drop end tl.transactions) held.items;
      },
    )
