-- ===== src/Network/Start.antt =====
-- Projet/Network/network.c: `Network`, which sets up the address of the node, starts its threads and
-- enters the first nodes it knows.
pub mod Online
pub mod Init
pub mod Free
use tek.Memory.{Heap}
use tek.Prelude.{
  ℕ, zero, suc, ◌+◌, ◌||◌, Bool, true, false, Option, none, some, List, [], ◌∷◌, ltb, if◌then◌else◌,
  ◌>>=◌, length, replicate,
}
use tek.Bytes.{block, write_at}
use tek.Network.Clients.{Address, Attempt, ClientInfo, port_size, add_client}
use tek.Network.Discovery.{minus_one}

abbrev pub default_port : List ℕ
default_port = b'7' ∷ b'0' ∷ b'7' ∷ b'1' ∷ []

pub data Status : Type 0 where
  starting online offline exiting : Status

-- The part of `struct server` that is set up here; `known_servers` is the address of the sentinel.
pub record Server : Type 0 where
  pub status : Status
  pub api : ℕ
  pub mining : ℕ
  pub address : Address
  pub known_servers : ℕ
  pub clients : Heap ClientInfo

-- The values of `problem`, in words.
pub data Problem : Type 0 where
  fine no_server_thread no_send_thread no_network_thread no_self no_first_server : Problem

abbrev pub too_long : Option (List ℕ) → Bool
too_long none = false
too_long (some port) = ltb port_size (length port)

abbrev pub port_text : Option (List ℕ) → List ℕ
port_text none = default_port
port_text (some port) = port

-- The copies of a host name and of a port.
unfoldable pub copy_address : (hostname : List ℕ) → (port : Option (List ℕ)) → Option Address
copy_address hostname port = do
  digits ← write_at 0 (port_text port) (replicate (port_size + 1) 0)
  some (record { hostname = some (block hostname); port = digits })

-- Which of the three threads could be started; none is tried behind one that could not.
abbrev pub start_threads : (server_thread send_thread network_thread : Bool) → Problem
start_threads server_thread send_thread network_thread =
    if server_thread
    then if send_thread then if network_thread then fine else no_network_thread else no_send_thread
    else no_server_thread

-- Adding the node itself, and then the first server, if there is one.
unfoldable pub add_first :
    Attempt → Heap ClientInfo → ℕ → Option Address → Option (Problem × Heap ClientInfo)
add_first attempt h list none = some (fine, h)
add_first attempt h list (some address) = do
  (client, h') ← add_client attempt h list address minus_one minus_one
  elim client [ none ↦ some (no_first_server, h') | some a ↦ some (fine, h') ]

unfoldable pub add_servers :
    (attempt attempt_first : Attempt) → Server → Option Address → Option (Problem × Heap ClientInfo)
add_servers attempt attempt_first server first_server = do
  let list = server.known_servers
  (client, h) ← add_client attempt server.clients list server.address server.api server.mining
  elim client [ none ↦ some (no_self, h) | some a ↦ add_first attempt_first h list first_server ]

-- `EXIT_SUCCESS` or not, once the threads that it waits for have ended.
abbrev pub exit_code : Problem → Bool
exit_code fine = true
exit_code no_server_thread = true
exit_code no_send_thread = false
exit_code no_network_thread = false
exit_code no_self = true
exit_code no_first_server = true

abbrev pub end_status : Problem → Server → Server
end_status fine server = server
end_status no_server_thread server = record server { status = exiting }
end_status no_send_thread server = record server { status = exiting }
end_status no_network_thread server = record server { status = exiting }
end_status no_self server = record server { status = exiting }
end_status no_first_server server = record server { status = exiting }

abbrev pub copy_first : Option (List ℕ) → Option (List ℕ) → Option (Option Address)
copy_first none port = some none
copy_first (some hostname) port = do address ← copy_address hostname port; some (some address)

-- Behind the tests on the arguments. The server thread sets the status to `ONLINE` before anything
-- is added.
unfoldable pub run_network :
    (problem : Problem)
    → (attempt attempt_first : Attempt) → Server
    → (hostname : List ℕ) → (port hostname_first port_first : Option (List ℕ))
    → Option (Bool × Server)
run_network problem attempt attempt_first server hostname port hostname_first port_first = do
  address ← copy_address hostname port
  first_server ← copy_first hostname_first port_first
  let server1 = record server { address = address }
  elim problem [
    | fine ↦ (do
      let server2 = record server1 { status = online }
      (problem', h) ← add_servers attempt attempt_first server2 first_server
      some (exit_code problem', end_status problem' (record server2 { clients = h })))
    | other ↦ some (exit_code other, end_status other server1)
  ]

-- The three answers say whether each thread could be started. A host name that is NULL is `none`.
unfoldable pub network :
    (server_thread send_thread network_thread : Bool)
    → (attempt attempt_first : Attempt) → Server
    → (hostname port hostname_first port_first : Option (List ℕ)) → Option (Bool × Server)
network server_thread send_thread network_thread attempt attempt_first server none port
      hostname_first port_first =
    some (false, server)
network server_thread send_thread network_thread attempt attempt_first server (some hostname) port
      hostname_first port_first =
    if too_long port || too_long port_first
    then some (false, server)
    else run_network (start_threads server_thread send_thread network_thread) attempt attempt_first
        server hostname port hostname_first port_first
