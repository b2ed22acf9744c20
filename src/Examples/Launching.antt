-- ===== src/Examples/Launching.antt =====
-- The start of a node, and its next start, on the data.
use tek.Prelude.{◌≡◌, refl, true, false, none, some, [], ◌∷◌, arith, length}
use tek.Bytes.{IsUll, decimal}
use tek.Block.{Block}
use tek.Blockchain.{blockchain_to_bin, blocks_number}
use tek.Blockchain.Binary.{SameBlocks}
use tek.Network.Discovery.Merge.{Knows}
use tek.Network.Start.{Server, online}
use tek.Network.Start.Online.{place}
use tek.Node.{Node}
use tek.Node.Invariant.{IsNode}
use tek.Node.Start.{Genesis, save_worker, start_gestion}
use tek.Node.Start.Again.{start_gestion-save_worker}
use tek.Program.{Args}
use tek.Program.Launch.{World, launch_tek, runs}
use tek.Program.Launch.Runs.{IsWilling, launch_tek-loads}
use tek.Examples.Data.{node0, node0-IsNode, sha0}
use tek.Examples.Chains.{junk}
use tek.Examples.Network.{a-IsPlace, b-IsPlace, reachable, server0}

abbrev genesis0 : Genesis
genesis0 = record { now = 9; junk = junk; slack = 0; schedule = 0 ∷ 0 ∷ 0 ∷ [] }

node0_small : IsUll (length (blockchain_to_bin node0.bc))
unfolding blockchain_to_bin tek.Blockchain.blocks_bytes tek.Block.block_to_bin tek.Block.txs_bytes
    tek.Transaction.txs_to_bin tek.Bytes.le_bytes
node0_small = omega arith

start_gestion-save_worker_example :
    (node' : Node) × (start_gestion sha0 online 4 genesis0 true (save_worker true none node0) [] []
      ≡ some (some node'))
    × SameBlocks node0.bc.blocks node'.bc.blocks
    × (node'.tl.transactions ≡ [])
    × IsNode sha0 node'
start_gestion-save_worker_example =
    start_gestion-save_worker sha0 node0 none 4 genesis0 [] [] node0-IsNode (omega arith)
      node0_small tt

abbrev world0 : World
world0 = record {
  mutex1 = true;
  mutex2 = true;
  server_thread = true;
  send_thread = true;
  network_thread = true;
  attempt = reachable 0;
  attempt_first = reachable 1;
  raw = server0;
  list_api = 0;
  list_mining = 0;
  genesis = genesis0;
  file = save_worker true none node0;
  incoming = [];
}

world0-IsWilling : IsWilling world0
world0-IsWilling = record {
  mutex1 = refl;
  mutex2 = refl;
  server_thread = refl;
  send_thread = refl;
  network_thread = refl;
  up = refl;
  up_first = refl;
}

-- `-ip a -ip2 b -p2 9 -d 4 -l`, with the chain that `node0` saved.
abbrev args0 : Args
args0 = record {
  ip = some (b'a' ∷ []);
  port = none;
  first_server_ip = some (b'b' ∷ []);
  port_first_server = some (b'9' ∷ []);
  api = false;
  api_port = [];
  mining = false;
  difficulty = 4;
  nb_mining_thread = 1;
  load_blockchain = true;
}

launch_tek-loads_example :
    (node : Node) × (server : Server) × (launch_tek sha0 world0 args0 ≡ some (runs node server))
    × SameBlocks node0.bc.blocks node.bc.blocks
    × (node.tl.transactions ≡ [])
    × IsNode sha0 node
    × (server.status ≡ online)
    × Knows server.known_servers server.clients
        (record {
          address = place (b'b' ∷ []) (some (b'9' ∷ []));
          api = 4294967295;
          mining = 4294967295;
        }
          ∷ record { address = place (b'a' ∷ []) none; api = 0; mining = 0 }
          ∷ [])
        2
launch_tek-loads_example =
    launch_tek-loads world0 world0-IsWilling args0 (b'a' ∷ []) (b'b' ∷ []) refl refl a-IsPlace
      b-IsPlace sha0 node0 none node0-IsNode (omega arith) node0_small refl refl tt
