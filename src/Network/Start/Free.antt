-- ===== src/Network/Start/Free.antt =====
-- Projet/Network/network.c: `freeServer`.
use tek.Memory.{Heap}
use tek.Prelude.{ℕ, ◌<◌, ◌≡◌, refl, Option, none, some, List, ◌++◌, All, length, ◌>>=◌}
use tek.Network.Clients.{ClientInfo, free_client_list}
use tek.Network.Clients.Ring.{Member, IsClients}
use tek.Network.Clients.Free.{free_client_list-free}
use tek.Network.Start.{Server}
use tek.Queue.Shared.{SharedQueue}
use tek.Queue.Shared.Drain.{IsQuiet, drain, drain-all, shared_queue_destroy}

-- The messages that it destroys, and what is left of the clients. `fuel` is for the longest of the
-- three.
unfoldable pub free_server :
    (fuel : ℕ) → Server → (outgoing incoming : SharedQueue) → Option (List ℕ × Heap ClientInfo)
free_server fuel server outgoing incoming = do
  (sent, outgoing') ← drain fuel outgoing
  (received, incoming') ← drain fuel incoming
  clients ← free_client_list fuel server.clients server.known_servers
  in_left ← shared_queue_destroy incoming'
  out_left ← shared_queue_destroy outgoing'
  some (sent ++ received, clients)

-- When no thread is in the queues any more: `freeServer` ends, destroys each message of both queues
-- once, and releases the sentinel and all clients, each once.
pub free_server-all :
    (fuel : ℕ) (server : Server) (outgoing incoming : SharedQueue) (ns : List Member)
    → length ns < fuel
    → length outgoing.queue < fuel
    → length incoming.queue < fuel
    → IsQuiet outgoing
    → IsQuiet incoming
    → IsClients server.clients server.known_servers ns
    → (h : Heap ClientInfo) × (free_server fuel server outgoing incoming
        ≡ some (outgoing.queue ++ incoming.queue, h))
      × (h.cells server.known_servers ≡ none)
      × All (λ n. h.cells n.addr ≡ none) ns
unfolding free_server shared_queue_destroy
free_server-all fuel server outgoing incoming ns few few_out few_in quiet_out quiet_in ok =
    let (h, freed, sentinel, all) =
      free_client_list-free fuel server.clients server.known_servers ns few ok in
    (
      h,
      rw (drain-all fuel outgoing few_out quiet_out, drain-all fuel incoming few_in quiet_in, freed)
          refl,
      sentinel,
      all,
    )
