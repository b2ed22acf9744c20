-- ===== src/Network/Clients.antt =====
-- Projet/Network/network_tools.c: the list of known nodes, circular and doubly linked, on the heap.
pub mod Ring
pub mod Changes
pub mod Search
pub mod Free
use tek.Memory.{Heap, alloc, store, release}
use tek.Prelude.{
  ℕ, zero, suc, ◌+◌, Bool, true, false, not, ◌&&◌, Option, none, some, List, [], ◌∷◌, ◌==◌,
  if◌then◌else◌, ◌>>=◌, length, replicate,
}
use tek.Bytes.{block, c_string, memcmp, write_at}

abbrev pub port_size : ℕ
port_size = 5

-- `struct address`: the object that `hostname` points to, and the array `port`.
pub record Address : Type 0 where
  pub hostname : Option (List ℕ)
  pub port : List ℕ

-- `struct clientInfo`. An `int` is its bit pattern.
pub record ClientInfo : Type 0 where
  pub address : Address
  pub api : ℕ
  pub mining : ℕ
  pub is_sentinel : Bool
  pub next : ℕ
  pub prev : Option ℕ
  pub sentinel : ℕ

-- What the system answers to `addClient`: a socket, its option, an address, a connection.
pub record Attempt : Type 0 where
  pub socket : Bool
  pub option : Bool
  pub resolved : Bool
  pub connected : Bool

-- The two numbers are what the new memory holds.
unfoldable pub init_client_list : (api mining : ℕ) → Heap ClientInfo → ℕ × Heap ClientInfo
init_client_list api mining h = (
  h.top,
  alloc h (record {
    address = record { hostname = none; port = replicate (port_size + 1) 0 };
    api = api;
    mining = mining;
    is_sentinel = true;
    next = h.top;
    prev = none;
    sentinel = h.top;
  }),
)

-- The new element behind `list`.
unfoldable pub link_client : Heap ClientInfo → ℕ → Address → ℕ → ℕ → Option (ℕ × Heap ClientInfo)
link_client h list address api mining = do
  l ← h.cells list
  let client = h.top
  let h1 = alloc h (record {
    address = address;
    api = api;
    mining = mining;
    is_sentinel = false;
    next = l.next;
    prev = some list;
    sentinel = l.sentinel;
  })
  h2 ← store h1 list (record l { next = client })
  n ← h2.cells l.next
  h3 ← store h2 l.next (record n { prev = some client })
  some (client, h3)

-- Behind the test on `hostname`.
unfoldable pub add_reached :
    Attempt
    → Heap ClientInfo
    → ℕ
    → (hostname port : List ℕ) → ℕ
    → ℕ
    → Option (Option ℕ × Heap ClientInfo)
add_reached attempt h list hostname port api mining =
    if not (attempt.socket && attempt.option) then some (none, h) else do
      name ← c_string hostname
      digits ← c_string port
      if not (attempt.resolved && attempt.connected) then some (none, h) else do
        port' ← write_at 0 digits (replicate (port_size + 1) 0)
        let address : Address = record { hostname = some (block name); port = port' }
        (client, h') ← link_client h list address api mining
        some (some client, h')

-- The address and the heap; no address if the node cannot be reached.
unfoldable pub add_client :
    Attempt → Heap ClientInfo → ℕ → Address → ℕ → ℕ → Option (Option ℕ × Heap ClientInfo)
add_client attempt h list address api mining = elim address.hostname [
  | none ↦ some (none, h)
  | some hostname ↦ add_reached attempt h list hostname address.port api mining
]

-- Whether the element was removed: a sentinel is not.
unfoldable pub remove_client : Heap ClientInfo → ℕ → Option (Bool × Heap ClientInfo)
remove_client h client = do
  c ← h.cells client
  if c.is_sentinel then some (false, h) else do
    p ← c.prev
    pc ← h.cells p
    h1 ← store h p (record pc { next = c.next })
    n ← h1.cells c.next
    h2 ← store h1 c.next (record n { prev = c.prev })
    h3 ← release h2 client
    some (true, h3)

-- The loops run on fuel; one more than there are elements is enough.
unfoldable pub free_loop : (fuel : ℕ) → Heap ClientInfo → ℕ → Option (Heap ClientInfo)
free_loop zero h list = none
free_loop (suc fuel) h list = do
  l ← h.cells list
  n ← h.cells l.next
  if n.is_sentinel
      then release h list
      else do (removed, h1) ← remove_client h l.next; free_loop fuel h1 list

unfoldable pub free_client_list : (fuel : ℕ) → Heap ClientInfo → ℕ → Option (Heap ClientInfo)
free_client_list fuel h list = do l ← h.cells list; free_loop fuel h l.sentinel

unfoldable pub len_loop : (fuel : ℕ) → Heap ClientInfo → ℕ → ℕ → Option ℕ
len_loop zero h client res = none
len_loop (suc fuel) h client res = do
  c ← h.cells client
  let more = len_loop fuel h c.next (res + 1)
  if c.is_sentinel then some res else more

unfoldable pub list_len : (fuel : ℕ) → Heap ClientInfo → ℕ → Option ℕ
list_len fuel h client = do c ← h.cells client; s ← h.cells c.sentinel; len_loop fuel h s.next 0

-- `last`.
unfoldable pub last_client : (fuel : ℕ) → Heap ClientInfo → ℕ → Option ℕ
last_client zero h client = none
last_client (suc fuel) h client = do
  c ← h.cells client
  n ← h.cells c.next
  let more = last_client fuel h c.next
  if n.is_sentinel then some client else more

-- `sameIP`.
unfoldable pub same_ip : Address → Address → Option Bool
same_ip addr1 addr2 = do
  host1 ← addr1.hostname
  host2 ← addr2.hostname
  name1 ← c_string host1
  name2 ← c_string host2
  me ← (if length name1 == length name2 then memcmp (length name1) host1 host2 else some false)
  ports ← memcmp port_size addr1.port addr2.port
  some (if ports then me else false)

unfoldable pub find_loop : (fuel : ℕ) → Heap ClientInfo → Address → ℕ → Option (Option ℕ)
find_loop zero h addr list = none
find_loop (suc fuel) h addr list = do
  c ← h.cells list
  if c.is_sentinel then some none else do
    same ← same_ip addr c.address
    let more = find_loop fuel h addr c.next
    if same then some (some list) else more

unfoldable pub find_client : (fuel : ℕ) → Heap ClientInfo → Address → ℕ → Option (Option ℕ)
find_client fuel h addr list = do
  l ← h.cells list
  s ← h.cells l.sentinel
  find_loop fuel h addr s.next
