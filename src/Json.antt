-- ===== src/Json.antt =====
-- The strings that txsToJson, tlToJson (Projet/Block/transactions.c), blockToJson
-- (Projet/Block/block.c) and blockchainToJson (Projet/Block/blockchain.c) make, and the sizes of the
-- buffers in which they make them.
pub mod Joined
use tek.Prelude.{
  ℕ, suc, ◌+◌, ◌*◌, ◌^◌, Bool, true, false, Option, none, some, List, [], ◌∷◌, ◌++◌, leb, ◌==◌,
  if◌then◌else◌, ◌>>=◌, length,
}
use tek.Bytes.{decimal, signed_pad}
use tek.Hash.{sha256_block_size, sha256_to_ascii}
use tek.Mining.{len_of_proof}
use tek.Transaction.{Transaction, TransactionsList}
use tek.Block.{Block}
use tek.Blockchain.{Blockchain}

-- `sprintf` of a text, and its NUL, behind `written` in a buffer of `size` bytes.
unfoldable pub print_behind : (size : ℕ) → (written text : List ℕ) → Option (List ℕ)
print_behind size written text =
    if leb (length written + length text + 1) size then some (written ++ text) else none

abbrev pub is_last {ℓ} : {A : Type ℓ} → List A → Bool
is_last [] = true
is_last (x ∷ xs) = false

-- The loop over the transactions or the blocks. `spare` tells, for the last one and for others, how
-- many bytes the buffer is reallocated with beyond what was written, the new text and a NUL.
unfoldable pub json_items {ℓ} :
    {A : Type ℓ} → (Bool → ℕ) → (A → Option (List ℕ)) → List ℕ → List A → Option (List ℕ)
unfolding print_behind
json_items spare to_json res [] = some res
json_items spare to_json res (x ∷ xs) = to_json x >>= λ json.
    let size = length res + length json + 1 + spare (is_last xs) in
    print_behind size res (if is_last xs then json else json ++ b',' ∷ []) >>= λ res'.
    json_items spare to_json res' xs

abbrev pub sender_key : List ℕ
sender_key = b'{' ∷ b'"' ∷ b's' ∷ b'e' ∷ b'n' ∷ b'd' ∷ b'e' ∷ b'r' ∷ b'"' ∷ b':' ∷ b'"' ∷ []

abbrev pub receiver_key : List ℕ
receiver_key =
    b'"' ∷ b',' ∷ b'"' ∷ b'r' ∷ b'e' ∷ b'c' ∷ b'e' ∷ b'i' ∷ b'v' ∷ b'e' ∷ b'r' ∷ b'"' ∷ b':' ∷ b'"'
    ∷ []

abbrev pub amount_key : List ℕ
amount_key = b'"' ∷ b',' ∷ b'"' ∷ b'a' ∷ b'm' ∷ b'o' ∷ b'u' ∷ b'n' ∷ b't' ∷ b'"' ∷ b':' ∷ []

abbrev pub time_key : List ℕ
time_key = b',' ∷ b'"' ∷ b't' ∷ b'i' ∷ b'm' ∷ b'e' ∷ b'"' ∷ b':' ∷ []

abbrev pub object_end : List ℕ
object_end = b'}' ∷ []

abbrev pub txs_json : Transaction → List ℕ
txs_json t =
    sender_key
    ++ (t.sender
        ++ (receiver_key
            ++ (t.receiver
                ++ (amount_key
                    ++ (decimal t.amount ++ (time_key ++ (signed_pad 0 t.time ++ object_end)))))))

-- `txsToJson`: 14 characters are reserved for the amount and 11 for the time.
unfoldable pub txs_to_json : Transaction → Option (List ℕ)
unfolding print_behind
txs_to_json t =
    let txs_size = length t.receiver + length t.sender + 14 + 11 in
    let size =
      length sender_key
      + length receiver_key
      + length amount_key
      + length time_key
      + length object_end in
    print_behind (size + txs_size + 1) [] (txs_json t)

abbrev pub open_list : List ℕ
open_list =
    b'{' ∷ b'"' ∷ b't' ∷ b'r' ∷ b'a' ∷ b'n' ∷ b's' ∷ b'a' ∷ b'c' ∷ b't' ∷ b'i' ∷ b'o' ∷ b'n' ∷ b's'
    ∷ b'"' ∷ b':' ∷ b'[' ∷ []

abbrev pub close_list : List ℕ
close_list = b']' ∷ b'}' ∷ []

-- `tlToJson`. The last buffer has twice the bytes that it needs.
unfoldable pub tl_to_json : TransactionsList → Option (List ℕ)
unfolding json_items txs_to_json print_behind
tl_to_json tl = do
  restxs ← json_items (λ last. 1) txs_to_json [] tl.transactions
  let size = length open_list + length close_list + length restxs + 1
  print_behind (size * 2) [] (open_list ++ (restxs ++ close_list))

abbrev pub previous_key : List ℕ
previous_key =
    b'{' ∷ b'"' ∷ b'p' ∷ b'r' ∷ b'e' ∷ b'v' ∷ b'i' ∷ b'o' ∷ b'u' ∷ b's' ∷ b'H' ∷ b'a' ∷ b's' ∷ b'h'
    ∷ b'"' ∷ b':' ∷ b'"' ∷ []

abbrev pub current_key : List ℕ
current_key =
    b'"' ∷ b',' ∷ b'"' ∷ b'c' ∷ b'u' ∷ b'r' ∷ b'r' ∷ b'e' ∷ b'n' ∷ b't' ∷ b'H' ∷ b'a' ∷ b's' ∷ b'h'
    ∷ b'"' ∷ b':' ∷ b'"' ∷ []

abbrev pub proof_key : List ℕ
proof_key = b'"' ∷ b',' ∷ b'"' ∷ b'p' ∷ b'r' ∷ b'o' ∷ b'o' ∷ b'f' ∷ b'"' ∷ b':' ∷ []

abbrev pub block_time_key : List ℕ
block_time_key = b',' ∷ b'"' ∷ b't' ∷ b'i' ∷ b'm' ∷ b'e' ∷ b'"' ∷ b':' ∷ []

abbrev pub transactions_key : List ℕ
transactions_key =
    b',' ∷ b'"' ∷ b't' ∷ b'r' ∷ b'a' ∷ b'n' ∷ b's' ∷ b'a' ∷ b'c' ∷ b't' ∷ b'i' ∷ b'o' ∷ b'n' ∷ b's'
    ∷ b'"' ∷ b':' ∷ b'[' ∷ []

abbrev pub block_end : List ℕ
block_end = b']' ∷ b'}' ∷ []

abbrev pub block_json : Block → List ℕ → List ℕ
block_json b restxs =
    previous_key
    ++ (sha256_to_ascii b.previus_hash
        ++ (current_key
            ++ (sha256_to_ascii b.block_hash
                ++ (proof_key
                    ++ (signed_pad 0 b.proof
                        ++ (block_time_key
                            ++ (signed_pad 0 b.time
                                ++ (transactions_key ++ (restxs ++ block_end)))))))))

-- `blockToJson`: no byte is spare in the buffer of the transactions.
unfoldable pub block_to_json : Block → Option (List ℕ)
unfolding json_items txs_to_json print_behind
block_to_json b = do
  let texts =
      length previous_key
      + length current_key
      + length proof_key
      + length block_time_key
      + length transactions_key
      + length block_end
  let size = texts + (sha256_block_size * 2 * 2 + len_of_proof b.proof + 11)
  restxs ← json_items (λ last. 0) txs_to_json [] b.tl.transactions
  print_behind (size + length restxs + 1) [] (block_json b restxs)

abbrev pub open_blocks : List ℕ
open_blocks = b'{' ∷ b'"' ∷ b'b' ∷ b'l' ∷ b'o' ∷ b'c' ∷ b'k' ∷ b's' ∷ b'"' ∷ b':' ∷ b'[' ∷ []

abbrev pub close_blocks : List ℕ
close_blocks = b']' ∷ b'}' ∷ []

-- `blockchainToJson`.
unfoldable pub blockchain_to_json : Blockchain → Option (List ℕ)
unfolding json_items block_to_json print_behind
blockchain_to_json bc = do
  resblock ← json_items (λ last. if last then 0 else 1) block_to_json [] bc.blocks
  let size = length open_blocks + length close_blocks + length resblock + 1
  print_behind size [] (open_blocks ++ (resblock ++ close_blocks))
