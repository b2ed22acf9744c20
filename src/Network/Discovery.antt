-- ===== src/Network/Discovery.antt =====
-- Projet/Network/network_tools.c: `sendNetwork` and `addServerFromMessage`, by which nodes tell one
-- another whom they know.
pub mod Entries
pub mod Announce
pub mod Refresh
pub mod Merge
pub mod Exchange
use tek.Memory.{Heap, store}
use tek.Prelude.{
  ℕ, zero, suc, ◌+◌, ◌-◌, ◌%◌, ◌^◌, Bool, true, false, Option, none, some, List, [], ◌∷◌, ◌++◌,
  ◌==◌, ltb, if◌then◌else◌, ◌>>=◌, length, drop, replicate,
}
use tek.Bytes.{c_string, fetch, le_bytes, le_value, write_at}
use tek.Message.{Message, create_message, type_network}
use tek.Network.Clients.{Address, Attempt, ClientInfo, port_size, add_client, find_client}

abbrev pub header_hostname_size : ℕ
header_hostname_size = 2

-- The `int` -1.
abbrev pub minus_one : ℕ
minus_one = 2 ^ 32 - 1

-- What `addServerFromMessage` takes from the bytes at `offset`, and the bytes it goes on by.
pub record Entry : Type 0 where
  pub address : Address
  pub api : ℕ
  pub mining : ℕ
  pub taken : ℕ

unfoldable pub read_entry : List ℕ → Option Entry
read_entry bytes = do
  (word, bytes1) ← fetch header_hostname_size bytes
  let size = le_value word
  let size_hostname = (size + 2 ^ 16 - port_size - 1) % 2 ^ 16
  (hostname, behind) ← fetch size_hostname bytes1
  (port, after) ← fetch (port_size + 1) behind
  (api, bytes2) ← fetch 4 (drop size bytes1)
  (mining, bytes3) ← fetch 4 bytes2
  some (record {
    address = record { hostname = some hostname; port = port };
    api = le_value api;
    mining = le_value mining;
    taken = header_hostname_size + size + 4 + 4;
  })

-- The stores to a client that is known already.
unfoldable pub update_client : Heap ClientInfo → ℕ → (api mining : ℕ) → Option (Heap ClientInfo)
update_client h client api mining = do
  c ← h.cells client
  store h client (record c {
    api = if api == minus_one then c.api else api;
    mining = if mining == minus_one then c.mining else mining;
  })

-- `fuel` is for the search; the client that `addClient` returns is not looked at.
unfoldable pub learn : (fuel : ℕ) → Attempt → Heap ClientInfo → ℕ → Entry → Option (Heap ClientInfo)
learn fuel attempt h list e = do
  known ← find_client fuel h e.address list
  elim known [
    | none ↦ (do (client, h') ← add_client attempt h list e.address e.api e.mining; some h')
    | some client ↦ update_client h client e.api e.mining
  ]

-- The loop of `addServerFromMessage`, on fuel. `attempts` is how the system answers, one by one.
unfoldable pub learn_loop :
    (fuel find_fuel : ℕ)
    → (ℕ → Attempt)
    → Heap ClientInfo
    → ℕ
    → Message
    → (offset : ℕ) → Option (Heap ClientInfo)
learn_loop zero find_fuel attempts h list message offset = none
learn_loop (suc fuel) find_fuel attempts h list message offset =
    if ltb offset message.size_data
    then (do
      e ← read_entry (drop offset message.payload)
      h' ← learn find_fuel (attempts 0) h list e
      learn_loop fuel find_fuel (λ k. attempts (k + 1)) h' list message (offset + e.taken))
    else some h

unfoldable pub add_server_from_message :
    (fuel find_fuel : ℕ) → (ℕ → Attempt) → Heap ClientInfo → ℕ → Message → Option (Heap ClientInfo)
add_server_from_message fuel find_fuel attempts h list message =
    learn_loop fuel find_fuel attempts h list message 0

-- The room for a client in the message of `sendNetwork`.
unfoldable pub entry_room : ClientInfo → Option ℕ
entry_room c = do
  host ← c.address.hostname
  name ← c_string host
  some (length name + 1 + port_size + 1 + header_hostname_size + 4 + 4)

unfoldable pub size_loop : (fuel : ℕ) → Heap ClientInfo → ℕ → (size : ℕ) → Option ℕ
size_loop zero h client size = none
size_loop (suc fuel) h client size = do
  c ← h.cells client
  if c.is_sentinel then some size else do room ← entry_room c; size_loop fuel h c.next (size + room)

-- The five `memcpy` for a client: the new offset and the buffer. `size_hostname` and `size` are
-- 16-bit numbers.
unfoldable pub write_entry : ClientInfo → (offset : ℕ) → List ℕ → Option (ℕ × List ℕ)
write_entry c offset buf = do
  host ← c.address.hostname
  name ← c_string host
  let size_hostname = (length name + 1) % 2 ^ 16
  let size = (size_hostname + port_size + 1) % 2 ^ 16
  buf1 ← write_at offset (le_bytes header_hostname_size size) buf
  let offset1 = offset + header_hostname_size
  (hostname, behind) ← fetch size_hostname host
  buf2 ← write_at offset1 hostname buf1
  let offset2 = offset1 + size_hostname
  (port, after) ← fetch (port_size + 1) c.address.port
  buf3 ← write_at offset2 port buf2
  let offset3 = offset2 + port_size + 1
  buf4 ← write_at offset3 (le_bytes 4 c.api) buf3
  buf5 ← write_at (offset3 + 4) (le_bytes 4 c.mining) buf4
  some (offset3 + 4 + 4, buf5)

unfoldable pub write_loop :
    (fuel : ℕ) → Heap ClientInfo → ℕ → (offset : ℕ) → List ℕ → Option (List ℕ)
write_loop zero h client offset buf = none
write_loop (suc fuel) h client offset buf = do
  c ← h.cells client
  if c.is_sentinel
      then some buf
      else do (offset', buf') ← write_entry c offset buf; write_loop fuel h c.next offset' buf'

-- A round of `sendNetwork`: the message it pushes. `junk` is what the new buffer holds.
unfoldable pub network_message :
    (fuel : ℕ) → Heap ClientInfo → ℕ → (junk : ℕ → List ℕ) → Option Message
network_message fuel h list junk = do
  l ← h.cells list
  s ← h.cells l.sentinel
  size ← size_loop fuel h s.next 0
  buf ← write_loop fuel h s.next 0 (junk size)
  create_message type_network size buf
