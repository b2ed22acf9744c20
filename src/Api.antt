-- ===== src/Api.antt =====
-- Projet/API/API.c: what the HTTP server does with a request.
pub mod Query
pub mod Post
pub mod Request
pub mod Resend
pub mod Serve
pub mod Accept
use tek.Prelude.{
  ℕ, zero, suc, Bool, true, false, not, ◌||◌, Option, none, some, List, [], ◌∷◌, ◌++◌, ◌==◌,
  if◌then◌else◌, ◌>>=◌, length, drop,
}
use tek.Bytes.{block, memcmp}
use tek.Bytes.Numerals.{atol}
use tek.Bytes.Text.{text_eq}
use tek.Transaction.{Transaction, TransactionsList, create_txs}
use tek.Blockchain.{Blockchain}
use tek.Json.{blockchain_to_json, tl_to_json}

abbrev pub sender_name : List ℕ
sender_name = b's' ∷ b'e' ∷ b'n' ∷ b'd' ∷ b'e' ∷ b'r' ∷ []

abbrev pub receiver_name : List ℕ
receiver_name = b'r' ∷ b'e' ∷ b'c' ∷ b'e' ∷ b'i' ∷ b'v' ∷ b'e' ∷ b'r' ∷ []

abbrev pub amount_name : List ℕ
amount_name = b'a' ∷ b'm' ∷ b'o' ∷ b'u' ∷ b'n' ∷ b't' ∷ []

abbrev pub get_method : List ℕ
get_method = b'G' ∷ b'E' ∷ b'T' ∷ 32 ∷ []

abbrev pub transactions_get : List ℕ
transactions_get =
    b't' ∷ b'r' ∷ b'a' ∷ b'n' ∷ b's' ∷ b'a' ∷ b'c' ∷ b't' ∷ b'i' ∷ b'o' ∷ b'n' ∷ b's' ∷ b'/' ∷ b'g'
    ∷ b'e' ∷ b't' ∷ []

abbrev pub server_count : List ℕ
server_count =
    b's' ∷ b'e' ∷ b'r' ∷ b'v' ∷ b'e' ∷ b'r' ∷ b'/' ∷ b'c' ∷ b'o' ∷ b'u' ∷ b'n' ∷ b't' ∷ []

abbrev pub blockchain_path : List ℕ
blockchain_path = b'b' ∷ b'l' ∷ b'o' ∷ b'c' ∷ b'k' ∷ b'c' ∷ b'h' ∷ b'a' ∷ b'i' ∷ b'n' ∷ []

abbrev pub transactions_post : List ℕ
transactions_post =
    b't' ∷ b'r' ∷ b'a' ∷ b'n' ∷ b's' ∷ b'a' ∷ b'c' ∷ b't' ∷ b'i' ∷ b'o' ∷ b'n' ∷ b's' ∷ b'/' ∷ b'p'
    ∷ b'o' ∷ b's' ∷ b't' ∷ []

-- The loops of `findPath`: up to a blank.
unfoldable pub to_blank : List ℕ → Option (List ℕ)
to_blank [] = none
to_blank (c ∷ cs) = let rest = to_blank cs in if c == 32 then some (c ∷ cs) else rest

unfoldable pub up_to_blank : List ℕ → Option (List ℕ)
up_to_blank [] = none
up_to_blank (c ∷ cs) =
    let rest = up_to_blank cs in if c == 32 then some [] else do res ← rest; some (c ∷ res)

-- The text between the first blank and the next one, without its first character.
unfoldable pub find_path : List ℕ → Option (List ℕ)
find_path str = do at ← to_blank (block str); up_to_blank (drop 2 at)

-- `findInfoTxs` reads `ressource` and then what is behind it in memory: `bytes` is both. First, what
-- stands behind the question mark or the end of the string.
unfoldable pub behind_question : List ℕ → Option (List ℕ)
behind_question [] = none
behind_question (c ∷ cs) =
    let rest = behind_question cs in if c == b'?' || c == 0 then some cs else rest

-- One piece, up to `stop` or to the end of the string, and what stands behind that.
unfoldable pub cut_piece : (stop : ℕ) → List ℕ → Option (List ℕ × List ℕ)
cut_piece stop [] = none
cut_piece stop (c ∷ cs) =
    let rest = cut_piece stop cs in
    if c == stop || c == 0 then some ([], cs) else do (piece, after) ← rest; some (c ∷ piece, after)

-- The pieces, at most `room` of them. The test on the byte comes before the test on their number.
unfoldable pub cut_pieces : (room : ℕ) → (para : Bool) → List ℕ → Option (List (List ℕ))
cut_pieces room para [] = none
cut_pieces zero para (c ∷ cs) = some []
cut_pieces (suc room) para (c ∷ cs) = if c == 0 then some [] else do
  (piece, after) ← cut_piece (if para then b'=' else b'&') (c ∷ cs)
  pieces ← cut_pieces room (not para) after
  some (piece ∷ pieces)

-- What `findInfoTxs` finds; a pointer that stays NULL is `none`.
pub record InfoTxs : Type 0 where
  pub amount : ℕ
  pub sender : Option (List ℕ)
  pub receiver : Option (List ℕ)

-- The loop over the pairs. An odd number of pieces leaves `infos[i + 1]` unset.
unfoldable pub assign_infos : List (List ℕ) → InfoTxs → Option InfoTxs
assign_infos [] info = some info
assign_infos (name ∷ []) info = do
  s ← memcmp 7 (block name) (block sender_name)
  r ← memcmp 9 (block name) (block receiver_name)
  a ← memcmp 7 (block name) (block amount_name)
  if s || r || a then none else some info
assign_infos (name ∷ value ∷ infos) info = do
  s ← memcmp 7 (block name) (block sender_name)
  if s then assign_infos infos (record info { sender = some value }) else do
    r ← memcmp 9 (block name) (block receiver_name)
    if r then assign_infos infos (record info { receiver = some value }) else do
      a ← memcmp 7 (block name) (block amount_name)
      if a
          then (do amount ← atol value; assign_infos infos (record info { amount = amount }))
          else assign_infos infos info

-- `behind` is what memory holds behind the string.
unfoldable pub find_info_txs : (resource behind : List ℕ) → Option InfoTxs
find_info_txs resource behind = do
  start ← behind_question (block resource ++ behind)
  infos ← cut_pieces 6 true start
  assign_infos infos (record { amount = 0; sender = none; receiver = none })

-- What the request gets to see, and what it changes.
pub record Api : Type 0 where
  pub tl : TransactionsList
  pub bc : Blockchain
  pub outgoing_txs : List Transaction

pub data Answer : Type 0 where
  silent not_found success error : Answer
  text : List ℕ → Answer

-- With all that it needs, the transaction that it posts; the clock shows `now`.
unfoldable pub post_info :
    (now : ℕ) → Api → InfoTxs → Option (List ℕ) → Option (List ℕ) → Answer × Api
post_info now api info none receiver = (error, api)
post_info now api info (some sender) none = (error, api)
post_info now api info (some sender) (some receiver) = if info.amount == 0 then (error, api) else (
  success,
  record api { outgoing_txs = api.outgoing_txs ++ create_txs now info.amount sender receiver ∷ [] },
)

unfoldable pub add_transaction_cmd :
    (now : ℕ) → Api → (resource behind : List ℕ) → Option (Answer × Api)
add_transaction_cmd now api resource behind = do
  info ← find_info_txs resource behind
  some (post_info now api info info.sender info.receiver)

-- The choice of `worker` on the path. `servers` is the text of `ServerListToJSON`.
unfoldable pub answer_path :
    (now : ℕ)
    → (servers : Option (List ℕ)) → Api
    → (resource behind : List ℕ) → Option (Answer × Api)
answer_path now servers api resource behind =
    if text_eq resource transactions_get
    then (do message ← tl_to_json api.tl; some (text message, api))
    else if text_eq resource server_count
    then (do message ← servers; some (text message, api))
    else if text_eq resource blockchain_path
    then (do message ← blockchain_to_json api.bc; some (text message, api))
    else do
      post ← memcmp 17 (block resource) (block transactions_post)
      if post then add_transaction_cmd now api resource behind else some (not_found, api)

-- `worker`, once it has read the request.
unfoldable pub worker :
    (now : ℕ)
    → (servers : Option (List ℕ)) → Api
    → (full_request behind : List ℕ) → Option (Answer × Api)
worker now servers api full_request behind = do
  get ← memcmp 4 (block full_request) (block get_method)
  if not get
      then some (silent, api)
      else do resource ← find_path full_request; answer_path now servers api resource behind
