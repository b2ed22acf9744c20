-- ===== src/Program/Launch/Runs.antt =====
-- From the command line's settings to a node that runs.
use tek.Prelude.{
  ℕ, ◌<◌, ◌^◌, ◌≡◌, refl, Bool, true, false, none, some, List, [], ◌∷◌, All, arith, Option, length,
}
use tek.Hash.{Sha}
use tek.Blockchain.{blocks_number, blockchain_to_bin}
use tek.Network.Clients.{init_client_list}
use tek.Network.Clients.Changes.{init_client_list-IsClients}
use tek.Network.Discovery.{minus_one}
use tek.Network.Discovery.Merge.{Knows, reached}
use tek.Network.Start.{Server, starting, online}
use tek.Network.Start.Init.{init_server}
use tek.Network.Start.Online.{IsPlace, place, network-Knows}
use tek.Node.{Node}
use tek.Node.Invariant.{IsIncoming, IsNode}
use tek.Node.Start.{save_worker, start_gestion}
use tek.Node.Start.Again.{start_gestion-save_worker}
use tek.Bytes.{IsUll}
use tek.Blockchain.Binary.{SameBlocks}
use tek.Program.{Args}
use tek.Program.Launch.{World, runs, flag, launch_network, launch_tek}

flag-lt : (b : Bool) → flag b < 2 ^ 32
flag-lt true = omega arith
flag-lt false = omega arith

-- All threads and mutexes can be made.
pub record IsWilling (w : World) : Type 0 where
  pub mutex1 : w.mutex1 ≡ true
  pub mutex2 : w.mutex2 ≡ true
  pub server_thread : w.server_thread ≡ true
  pub send_thread : w.send_thread ≡ true
  pub network_thread : w.network_thread ≡ true
  pub up : reached w.attempt ≡ true
  pub up_first : reached w.attempt_first ≡ true

module _ (w : World) (willing : IsWilling w) (args : Args) (host first : List ℕ)
    (ip : args.ip ≡ some host) (ip2 : args.first_server_ip ≡ some first)
    (fits : IsPlace host args.port) (fits_first : IsPlace first args.port_first_server) where
  -- The network that starts.
  launch_network-Knows :
      (server : Server) × (launch_network w args ≡ some (true, server))
      × (server.status ≡ online)
      × Knows server.known_servers server.clients
          (record {
            address = place first args.port_first_server;
            api = minus_one;
            mining = minus_one;
          }
            ∷ record {
              address = place host args.port;
              api = flag args.api;
              mining = flag args.mining;
            }
            ∷ [])
          2
  unfolding launch_network init_server
  launch_network-Knows =
      let list = init_client_list w.list_api w.list_mining w.raw.clients in
      let s0 : Server = record w.raw {
        status = starting;
        api = flag args.api;
        mining = flag args.mining;
        address = record { hostname = none; port = w.raw.address.port };
        known_servers = list.0;
        clients = list.1;
      } in
      let (h, ran, knows) =
        network-Knows w.attempt w.attempt_first s0 host first args.port args.port_first_server fits
          fits_first (init_client_list-IsClients w.list_api w.list_mining w.raw.clients)
          (flag-lt args.api) (flag-lt args.mining) in
      let both = rw (willing.up, willing.up_first) at ran in
      (
        record s0 { status = online; address = place host args.port; clients = h },
        rw
            (
              willing.mutex1, willing.mutex2, willing.server_thread, willing.send_thread,
              willing.network_thread, ip, ip2,
            )
            both,
        refl,
        rw (willing.up, willing.up_first) at knows,
      )

  -- When the mutexes and threads can be made, both nodes are reached, and host names and ports fit;
  -- with messages as they come off a socket: a node that is to load its chain, and finds the file that
  -- a well-formed node with fewer than 2 ^ 64 blocks in fewer than 2 ^ 64 bytes has saved, runs. It is
  -- well formed, with the same blocks and no pending transaction, online, and knows itself and the
  -- first server.
  pub launch_tek-loads :
      (sha : Sha) (old : Node) (file : Option (List ℕ))
      → IsNode sha old
      → IsUll (blocks_number old.bc)
      → IsUll (length (blockchain_to_bin old.bc))
      → args.load_blockchain ≡ true
      → w.file ≡ save_worker true file old
      → All IsIncoming w.incoming
      → (node : Node) × (server : Server) × (launch_tek sha w args ≡ some (runs node server))
        × SameBlocks old.bc.blocks node.bc.blocks
        × (node.tl.transactions ≡ [])
        × IsNode sha node
        × (server.status ≡ online)
        × Knows server.known_servers server.clients
            (record {
              address = place first args.port_first_server;
              api = minus_one;
              mining = minus_one;
            }
              ∷ record {
                address = place host args.port;
                api = flag args.api;
                mining = flag args.mining;
              }
              ∷ [])
            2
  unfolding launch_tek
  launch_tek-loads sha old file good count small loads saved fresh =
      let (server, launched, up, knows) = launch_network-Knows in
      let (node, started, same, empty, valid) =
        start_gestion-save_worker sha old file args.difficulty w.genesis w.incoming [] good count
          small fresh in
      let run : start_gestion sha online args.difficulty w.genesis args.load_blockchain w.file
            w.incoming []
          ≡ some (some node) =
        rw (loads, saved) started in
      (node, server, rw (launched, up, run) refl, same, empty, valid, up, knows)
