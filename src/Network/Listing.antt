-- ===== src/Network/Listing.antt =====
-- Projet/Network/network_tools.c: `ServerListToJSON`, with the sizes of its buffers.
pub mod Listed
use tek.Memory.{Heap}
use tek.Prelude.{
  ℕ, zero, suc, ◌+◌, ◌-◌, ◌^◌, Option, none, some, List, [], ◌∷◌, ◌++◌, ltb, if◌then◌else◌, ◌>>=◌,
  length,
}
use tek.Bytes.{c_string, decimal}
use tek.Json.{print_behind}
use tek.Network.Clients.{ClientInfo, list_len}

abbrev pub hostname_key : List ℕ
hostname_key =
    b'{' ∷ b'"' ∷ b'h' ∷ b'o' ∷ b's' ∷ b't' ∷ b'n' ∷ b'a' ∷ b'm' ∷ b'e' ∷ b'"' ∷ b':' ∷ b'"' ∷ []

abbrev pub port_key : List ℕ
port_key = b'"' ∷ b',' ∷ b'"' ∷ b'p' ∷ b'o' ∷ b'r' ∷ b't' ∷ b'"' ∷ b':' ∷ []

abbrev pub api_key : List ℕ
api_key = b',' ∷ b'"' ∷ b'a' ∷ b'p' ∷ b'i' ∷ b'"' ∷ b':' ∷ []

abbrev pub mining_key : List ℕ
mining_key = b',' ∷ b'"' ∷ b'm' ∷ b'i' ∷ b'n' ∷ b'i' ∷ b'n' ∷ b'g' ∷ b'"' ∷ b':' ∷ []

abbrev pub server_end : List ℕ
server_end = b'}' ∷ []

abbrev pub size_key : List ℕ
size_key = b'{' ∷ b'"' ∷ b's' ∷ b'i' ∷ b'z' ∷ b'e' ∷ b'"' ∷ b':' ∷ []

abbrev pub list_key : List ℕ
list_key =
    b',' ∷ b'"' ∷ b's' ∷ b'e' ∷ b'r' ∷ b'v' ∷ b'e' ∷ b'r' ∷ b'_' ∷ b'l' ∷ b'i' ∷ b's' ∷ b't' ∷ b'"'
    ∷ b':' ∷ b'[' ∷ []

abbrev pub list_end : List ℕ
list_end = b']' ∷ b'}' ∷ []

-- `%d` of a bit pattern.
unfoldable pub signed_decimal : ℕ → List ℕ
signed_decimal v = if ltb v (2 ^ 31) then decimal v else b'-' ∷ decimal (2 ^ 32 - v)

abbrev pub server_json : (name digits : List ℕ) → (api mining : ℕ) → List ℕ
server_json name digits api mining =
    hostname_key
    ++ (name
        ++ (port_key
            ++ (digits
                ++ (api_key
                    ++ (signed_decimal api
                        ++ (mining_key ++ (signed_decimal mining ++ server_end)))))))

-- `base` has 48 characters, and 4 are added.
unfoldable pub server_to_json : ClientInfo → Option (List ℕ)
server_to_json c = do
  host ← c.address.hostname
  name ← c_string host
  digits ← c_string c.address.port
  let size = length name + length digits + 48 + 4 + 1
  print_behind size [] (server_json name digits c.api c.mining)

-- The second loop of `AllServerToJSON`, on fuel.
unfoldable pub all_loop : (fuel : ℕ) → Heap ClientInfo → ℕ → (res : List ℕ) → Option (List ℕ)
all_loop zero h client res = none
all_loop (suc fuel) h client res = do
  c ← h.cells client
  if c.is_sentinel then some res else do
    temp ← server_to_json c
    res' ← print_behind (length res + length temp + 2) res (b',' ∷ temp)
    all_loop fuel h c.next res'

-- `none` inside `some` is NULL.
unfoldable pub all_server_to_json : (fuel : ℕ) → Heap ClientInfo → ℕ → Option (Option (List ℕ))
all_server_to_json fuel h list = do
  l ← h.cells list
  s ← h.cells l.sentinel
  c ← h.cells s.next
  if c.is_sentinel
      then some none
      else do temp ← server_to_json c; res ← all_loop fuel h c.next temp; some (some res)

-- `str` has 31 characters. The length of NULL is undefined.
unfoldable pub server_list_to_json : (fuel : ℕ) → Heap ClientInfo → ℕ → Option (List ℕ)
server_list_to_json fuel h list = do
  size ← list_len fuel h list
  all ← all_server_to_json fuel h list
  temp ← all
  print_behind (31 + length temp + 1) []
      (size_key ++ (decimal size ++ (list_key ++ (temp ++ list_end))))
