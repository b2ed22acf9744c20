-- ===== src/Network/Start/Init.antt =====
-- Projet/Network/network.c: `initServer`.
use tek.Prelude.{◌&&◌, Bool, true, false, none, if◌then◌else◌, ℕ}
use tek.Network.Clients.{init_client_list}
use tek.Network.Start.{Server, starting}

-- The two mutexes can be initialised or not; `raw` is what the new memory holds, and the last two
-- numbers what that of the sentinel does. The first result says whether the structure is set up: the
-- caller gets its address in both cases, and its lists are then not touched.
unfoldable pub init_server :
    (mutex1 mutex2 : Bool)
    → (api mining : ℕ) → (raw : Server) → (list_api list_mining : ℕ) → Bool × Server
init_server mutex1 mutex2 api mining raw list_api list_mining =
    let server = record raw {
      api = api;
      mining = mining;
      address = record { hostname = none; port = raw.address.port };
    } in
    let list = init_client_list list_api list_mining raw.clients in
    if mutex1 && mutex2
    then (true, record server { status = starting; known_servers = list.0; clients = list.1 })
    else (false, server)
