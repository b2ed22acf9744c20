-- ===== src/Message/Binary.antt =====
-- Messages over the wire.
use tek.Prelude.{
  ℕ, ◌%◌, ◌<◌, ◌≡◌, refl, none, some, List, [], ◌∷◌, ◌++◌, append-nil, arith, ◌>>=◌, length,
}
use tek.Bytes.{IsUll, fetch, le_bytes, le_value}
use tek.Bytes.Words.{fetch-append, fetch_short, fetch_ull-le_bytes}
use tek.Message.{Message, create_message, bin_to_message, message_to_bin}

-- A message whose payload has the size that it says.
pub record IsMessage (m : Message) : Type 0 where
  pub kind : m.type < 256
  pub size : length m.payload ≡ m.size_data
  pub ull : IsUll m.size_data

-- Of a buffer with just the bytes it is to copy, `CreateMessage` makes a message.
pub create_message-whole :
    (type size_data : ℕ) (payload : List ℕ)
    → length payload ≡ size_data
    → create_message type size_data payload
      ≡ some (record { type = type; size_data = size_data; payload = payload })
unfolding create_message
create_message-whole type size_data payload e =
    let copied : fetch size_data payload ≡ some (payload, []) =
      rw (append-nil payload) at (fetch-append size_data payload [] e) in
    rw copied

pub fetch_byte : {b : ℕ} {bs : List ℕ} → fetch 1 (b ∷ bs) ≡ some (b ∷ [], bs)
unfolding fetch
fetch_byte = refl

pub le_value_byte : (b : ℕ) → le_value (b ∷ []) ≡ b
unfolding le_value
le_value_byte b = omega arith

-- What `MessageToBin` wrote of a message with the payload size that it says and a one-byte type,
-- `BinToMessage` reads back.
pub bin_to_message-message_to_bin :
    (m : Message) → IsMessage m → (message_to_bin m >>= bin_to_message) ≡ some m
unfolding message_to_bin bin_to_message
bin_to_message-message_to_bin m ok =
    let own : fetch m.size_data m.payload ≡ some (m.payload, []) =
      rw (append-nil m.payload) at (fetch-append m.size_data m.payload [] ok.size) in
    rw
      (
        own,
        fetch_byte,
        fetch_ull-le_bytes m.size_data m.payload ok.ull,
        create_message-whole _ m.size_data m.payload ok.size,
      )
      (ground (arith, le_value_byte (m.type % 256), ok.kind))

-- A 64-bit length in the header that the payload does not have makes `BinToMessage` copy from
-- outside the buffer.
pub bin_to_message_short :
    (type size_data : ℕ) (payload : List ℕ)
    → IsUll size_data
    → length payload < size_data
    → bin_to_message (type ∷ (le_bytes 8 size_data ++ payload)) ≡ none
unfolding bin_to_message create_message
bin_to_message_short type size_data payload ull short =
    rw (fetch_byte, fetch_ull-le_bytes size_data payload ull, fetch_short size_data payload short)
