-- ===== src/Message.antt =====
-- Projet/Network/message.c and message.h.
pub mod Binary
use tek.Prelude.{ℕ, ◌+◌, ◌%◌, Option, none, some, List, [], ◌∷◌, ◌++◌, ◌>>=◌}
use tek.Bytes.{fetch, fetch_ull, le_bytes, le_value}

-- The kinds of messages, from general_informations.h.
abbrev pub type_network : ℕ
type_network = 1

abbrev pub type_txs : ℕ
type_txs = 2

abbrev pub type_blockchain : ℕ
type_blockchain = 3

-- `MESSAGE`.
pub record Message : Type 0 where
  pub type : ℕ
  pub size_data : ℕ
  pub payload : List ℕ

-- `CreateMessage` copies `size_data` bytes of `payload`.
unfoldable pub create_message : (type size_data : ℕ) → (payload : List ℕ) → Option Message
create_message type size_data payload = do
  (copied, after) ← fetch size_data payload
  some (record { type = type; size_data = size_data; payload = copied })

-- One byte of type, eight of length, then the payload.
unfoldable pub bin_to_message : List ℕ → Option Message
unfolding create_message
bin_to_message buff = do
  (type, buff1) ← fetch 1 buff
  (size_data, buff2) ← fetch_ull buff1
  create_message (le_value type) size_data buff2

unfoldable pub message_to_bin : Message → Option (List ℕ)
message_to_bin message = do
  (payload, after) ← fetch message.size_data message.payload
  some ((message.type % 256) ∷ (le_bytes 8 message.size_data ++ payload))
