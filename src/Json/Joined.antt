-- ===== src/Json/Joined.antt =====
-- What the JSON routines print, and when a buffer is too small for it.
use tek.Prelude.{
  ℕ, ◌+◌, ◌≤◌, ◌≡◌, refl, ap, ◌∙◌, sym, Bool, true, false, Option, none, some, List, [], ◌∷◌, ◌++◌,
  append_assoc, append-nil, arith, leb, if◌then◌else◌, length, length-append, All, Bool-cases, inl,
  inr,
}
use tek.Bytes.{decimal, signed_pad}
use tek.Transaction.{Transaction, TransactionsList}
use tek.Block.{Block}
use tek.Json.{
  print_behind, json_items, txs_json, txs_to_json, tl_to_json, block_to_json, open_list, close_list,
  receiver_key, amount_key, time_key, object_end,
}

-- The amount and the time have 25 characters together, at most.
unfoldable pub numbers_fit : Transaction → Bool
numbers_fit t = leb (length (decimal t.amount) + length (signed_pad 0 t.time)) 25

-- `txsToJson` prints the text of a transaction if its amount and time have 25 characters together,
-- at most; otherwise it writes outside its buffer.
pub txs_to_json-fits :
    (t : Transaction) → txs_to_json t ≡ (if numbers_fit t then some (txs_json t) else none)
unfolding txs_to_json print_behind numbers_fit
txs_to_json-fits t =
    let n7 = length-append (signed_pad 0 t.time) object_end in
    let n6 = length-append time_key (signed_pad 0 t.time ++ object_end) in
    let n5 = length-append (decimal t.amount) (time_key ++ (signed_pad 0 t.time ++ object_end)) in
    let n3 =
      length-append t.receiver
        (amount_key ++ (decimal t.amount ++ (time_key ++ (signed_pad 0 t.time ++ object_end)))) in
    let n1 = length-append t.sender (
      receiver_key
      ++ (t.receiver
          ++ (amount_key
              ++ (decimal t.amount ++ (time_key ++ (signed_pad 0 t.time ++ object_end)))))) in
    ground (arith, n7, n6, n5, n3, n1)

-- The texts with commas between them.
abbrev pub joined {ℓ} : {A : Type ℓ} → (A → List ℕ) → List A → List ℕ
joined text [] = []
joined text (x ∷ []) = text x
joined text (x ∷ y ∷ xs) = (text x ++ b',' ∷ []) ++ joined text (y ∷ xs)

module _ {ℓ} {A : Type ℓ} (spare : Bool → ℕ) (to_json : A → Option (List ℕ))
    (text : A → List ℕ) where
  -- With a spare byte for each comma, the loop stays inside its buffer.
  pub json_items-joined :
      (res : List ℕ) (xs : List A)
      → 1 ≤ spare false
      → All (λ x. to_json x ≡ some (text x)) xs
      → json_items spare to_json res xs ≡ some (res ++ joined text xs)
  unfolding json_items print_behind
  json_items-joined res [] room all = ap some (sym (append-nil res))
  json_items-joined res (x ∷ []) room all =
      let fits : leb (length res + length (text x) + 1)
            (length res + length (text x) + 1 + spare true)
          ≡ true =
        ground arith in
      rw (all.0, fits) refl
  json_items-joined res (x ∷ y ∷ xs) room all =
      let comma = b',' ∷ [] in
      let fits : leb (length res + length (text x ++ comma) + 1)
            (length res + length (text x) + 1 + spare false)
          ≡ true =
        ground (arith, length-append (text x) comma) in
      rw (all.0, fits)
        (json_items-joined (res ++ (text x ++ comma)) (y ∷ xs) room all.1
          ∙ ap some (append_assoc res (text x ++ comma) (joined text (y ∷ xs))))

  -- Without, the first comma is written over the end.
  pub json_items_overflow :
      (res : List ℕ) (x y : A) (xs : List A)
      → spare false ≡ 0
      → to_json x ≡ some (text x)
      → json_items spare to_json res (x ∷ y ∷ xs) ≡ none
  unfolding json_items print_behind
  json_items_overflow res x y xs none_spare e =
      let comma = b',' ∷ [] in
      let past : leb (length res + length (text x ++ comma) + 1)
            (length res + length (text x) + 1 + spare false)
          ≡ false =
        ground (arith, length-append (text x) comma) in
      rw (e, past)

all_txs_json :
    (ts : List Transaction)
    → All (λ t. numbers_fit t ≡ true) ts
    → All (λ t. txs_to_json t ≡ some (txs_json t)) ts
all_txs_json [] h = tt
all_txs_json (t ∷ ts) h = (txs_to_json-fits t ∙ (rw h.0 refl), all_txs_json ts h.1)

-- If the numbers of each transaction have 25 characters at most, `tlToJson` prints all
-- transactions, with commas between them, and stays inside its buffers.
pub tl_to_json-joined :
    (tl : TransactionsList)
    → All (λ t. numbers_fit t ≡ true) tl.transactions
    → tl_to_json tl ≡ some (open_list ++ (joined txs_json tl.transactions ++ close_list))
unfolding tl_to_json print_behind
tl_to_json-joined tl h =
    let items =
      json_items-joined (λ last. 1) txs_to_json txs_json [] tl.transactions (omega arith)
        (all_txs_json tl.transactions h) in
    let texts = joined txs_json tl.transactions in
    rw items (ground (arith, length-append texts close_list))

json_items_undefined :
    (x y : Transaction) (ts : List Transaction)
    → txs_to_json x ≡ none
    → json_items (λ last. 0) txs_to_json [] (x ∷ y ∷ ts) ≡ none
unfolding json_items
json_items_undefined x y ts first = rw first

-- `blockToJson` writes outside its buffer for every block of two transactions or more.
pub block_to_json_overflow :
    (b : Block) (x y : Transaction) (ts : List Transaction)
    → b.tl.transactions ≡ x ∷ y ∷ ts
    → block_to_json b ≡ none
unfolding block_to_json
block_to_json_overflow b x y ts e = elim (Bool-cases (numbers_fit x)) [
  | inl fits ↦
      let over =
        json_items_overflow (λ last. 0) txs_to_json txs_json [] x y ts refl
          (txs_to_json-fits x ∙ (rw fits refl)) in
      rw (e, over)
  | inr not_fits ↦
      let first : txs_to_json x ≡ none = txs_to_json-fits x ∙ (rw not_fits refl) in
      rw (e, json_items_undefined x y ts first)
]
