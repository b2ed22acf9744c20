-- ===== src/Transaction/Printed.antt =====
-- `txsToString` and `tlToString`: which transactions fit the buffers, and what is printed of them.
use tek.Prelude.{
  lt→ltb, ◌-◌, ◌≤◌, ◌<◌, ◌^◌, replicate, length-replicate, ℕ, ◌+◌, ◌≡◌, refl, Bool, true, none,
  some, List, [], ◌∷◌, ◌++◌, arith, leb, >>=-eq-some, if◌then◌else◌, length, length-append, All,
}
use tek.Bytes.{decimal, signed_pad, zero_pad}
use tek.Mining.Digits.{decimal_fits}
use tek.Transaction.{
  Transaction, TransactionsList, txs_text, txs_to_string, list_to_string, tl_to_string,
}

-- The padded amount and time have 25 characters together, at most.
unfoldable pub prints : Transaction → Bool
prints t = leb (length (zero_pad 14 (decimal t.amount)) + length (signed_pad 11 t.time)) 25

abbrev pub AllPrint : List Transaction → Type 0
AllPrint = All (λ t. prints t ≡ true)

-- The texts one after the other, with nothing between them.
unfoldable pub list_text : List Transaction → List ℕ
list_text [] = []
list_text (t ∷ ts) = txs_text t ++ list_text ts

txs_to_string-prints :
    (t : Transaction) → txs_to_string t ≡ (if prints t then some (txs_text t) else none)
unfolding txs_to_string prints
txs_to_string-prints t =
    let amount = zero_pad 14 (decimal t.amount) in
    let time = signed_pad 11 t.time in
    ground (
      arith,
      length-append t.sender (t.receiver ++ (amount ++ time)),
      length-append t.receiver (amount ++ time),
      length-append amount time,
    )

list_to_string-text :
    (ts : List Transaction) → AllPrint ts → list_to_string ts ≡ some (list_text ts)
unfolding list_to_string list_text
list_to_string-text [] h = refl
list_to_string-text (t ∷ ts) h = rw (txs_to_string-prints t, h.0, list_to_string-text ts h.1) refl

pub tl_to_string-text :
    (tl : TransactionsList)
    → AllPrint tl.transactions
    → tl_to_string tl ≡ some (list_text tl.transactions)
unfolding tl_to_string
tl_to_string-text tl h = list_to_string-text tl.transactions h

list_to_string-AllPrint :
    (ts : List Transaction) (s : List ℕ) → list_to_string ts ≡ some s → AllPrint ts
unfolding list_to_string
list_to_string-AllPrint [] s e = tt
list_to_string-AllPrint (t ∷ ts) s e =
    let (buf, e1, k) = >>=-eq-some (txs_to_string t) _ e in
    let (more, e2, k2) = >>=-eq-some (list_to_string ts) _ k in
    (ground (arith, txs_to_string-prints t), list_to_string-AllPrint ts more e2)

-- A list that is printed fits.
pub tl_to_string-AllPrint :
    (tl : TransactionsList) (s : List ℕ) → tl_to_string tl ≡ some s → AllPrint tl.transactions
unfolding tl_to_string
tl_to_string-AllPrint tl s e = list_to_string-AllPrint tl.transactions s e

length-zero_pad-le : (w : ℕ) (s : List ℕ) → length s ≤ w → length (zero_pad w s) ≡ w
unfolding zero_pad
length-zero_pad-le w s h = omega (
  arith,
  length-append (replicate (w - length s) b'0') s,
  length-replicate {A = ℕ} (w - length s) b'0',
)

-- Amounts below 10 ^ 14 and times below 10 ^ 11 fit.
pub prints_small : (t : Transaction) → t.amount < 10 ^ 14 → t.time < 10 ^ 11 → prints t ≡ true
unfolding prints signed_pad
prints_small t small soon =
    let amount = length-zero_pad-le 14 (decimal t.amount) (decimal_fits 13 t.amount small) in
    let time = length-zero_pad-le 11 (decimal t.time) (decimal_fits 10 t.time soon) in
    let positive = lt→ltb t.time (2 ^ 63) (omega (arith, soon)) in rw (positive, amount, time) refl
