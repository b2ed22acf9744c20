-- ===== src/Network/Receive.antt =====
-- Projet/Network/server.c: `read_thread`, which takes one message off a connection.
pub mod Chunks
pub mod Whole
use tek.Memory.{Heap}
use tek.Prelude.{
  ℕ, zero, suc, ◌+◌, ◌-◌, Bool, true, false, Option, none, some, List, [], ◌∷◌, ◌++◌, ◌==◌, leb,
  if◌then◌else◌, ◌>>=◌, length, take, drop,
}
use tek.Bytes.{fetch, fetch_ull, le_value}
use tek.Message.{Message, bin_to_message, type_network}
use tek.Network.Clients.{Attempt, ClientInfo}
use tek.Network.Discovery.{add_server_from_message}

abbrev pub header_size : ℕ
header_size = 9

-- `read` of at most `n` bytes from a connection: what it delivers, in pieces of any size. Nothing
-- more, or an empty piece, is the end or an error.
unfoldable pub read_some : (n : ℕ) → List (List ℕ) → List ℕ × List (List ℕ)
read_some n [] = ([], [])
read_some n (piece ∷ pieces) =
    if leb (length piece) n then (piece, pieces) else (take n piece, drop n piece ∷ pieces)

pub data Received : Type 0 where
  problem : Received
  received : List ℕ → List (List ℕ) → Received

-- The two loops, on fuel: as much as there are bytes to read is enough, since each `read` that goes
-- on delivers one. `buf` is what was read before.
unfoldable pub read_loop : (fuel nb_char_to_read : ℕ) → List (List ℕ) → (buf : List ℕ) → Received
read_loop zero nb_char_to_read socket buf =
    if nb_char_to_read == 0 then received buf socket else problem
read_loop (suc fuel) nb_char_to_read socket buf =
    let (bytes, socket') = read_some nb_char_to_read socket in
    let more = read_loop fuel (nb_char_to_read - length bytes) socket' (buf ++ bytes) in
    if nb_char_to_read == 0
    then received buf socket
    else if length bytes == 0
    then problem
    else more

-- The part of `struct server` that this thread changes.
pub record Inbox : Type 0 where
  pub known_servers : Heap ClientInfo
  pub incoming : List Message

-- The `switch` on the type. The two numbers are fuel.
unfoldable pub deliver :
    (fuel find_fuel : ℕ) → (ℕ → Attempt) → (list : ℕ) → Inbox → Message → Option Inbox
deliver fuel find_fuel attempts list inbox message =
    if message.type == type_network
    then (do
      h ← add_server_from_message fuel find_fuel attempts inbox.known_servers list message
      some (record inbox { known_servers = h }))
    else some (record inbox { incoming = inbox.incoming ++ message ∷ [] })

-- Behind the second loop, and behind the first.
unfoldable pub read_message :
    (fuel find_fuel : ℕ) → (ℕ → Attempt) → (list : ℕ) → Inbox → Received → Option Inbox
read_message fuel find_fuel attempts list inbox problem = some inbox
read_message fuel find_fuel attempts list inbox (received data_buff socket) = do
  message ← bin_to_message data_buff
  deliver fuel find_fuel attempts list inbox message

unfoldable pub read_data :
    (fuel find_fuel : ℕ) → (ℕ → Attempt) → (list : ℕ) → Inbox → Received → Option Inbox
read_data fuel find_fuel attempts list inbox problem = some inbox
read_data fuel find_fuel attempts list inbox (received header socket) = do
  (type, header1) ← fetch 1 header
  (size_data, header2) ← fetch_ull header1
  read_message fuel find_fuel attempts list inbox (read_loop size_data size_data socket header)

unfoldable pub read_thread :
    (fuel find_fuel : ℕ) → (ℕ → Attempt) → (list : ℕ) → Inbox → List (List ℕ) → Option Inbox
read_thread fuel find_fuel attempts list inbox socket =
    read_data fuel find_fuel attempts list inbox (read_loop header_size header_size socket [])
