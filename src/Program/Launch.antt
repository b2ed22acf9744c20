-- ===== src/Program/Launch.antt =====
-- Projet/main.c: `LaunchTEK`, with `NetworkThread` and `GestionThread`, up to the loops of the threads.
pub mod Runs
use tek.Prelude.{ℕ, Bool, true, false, not, Option, none, some, List, [], if◌then◌else◌, ◌>>=◌}
use tek.Hash.{Sha}
use tek.Message.{Message}
use tek.Network.Clients.{Attempt}
use tek.Network.Start.{Server, network}
use tek.Network.Start.Init.{init_server}
use tek.Node.{Node}
use tek.Node.Start.{Genesis, is_online, start_gestion}
use tek.Program.{Args}

-- What the system answers: to the mutexes of `initServer`, to the start of the three threads of
-- `Network`, to the first two nodes that are contacted; what new memory holds; what the first block
-- depends on; the saved file; and the messages that came in before `gestion` starts.
pub record World : Type 0 where
  pub mutex1 : Bool
  pub mutex2 : Bool
  pub server_thread : Bool
  pub send_thread : Bool
  pub network_thread : Bool
  pub attempt : Attempt
  pub attempt_first : Attempt
  pub raw : Server
  pub list_api : ℕ
  pub list_mining : ℕ
  pub genesis : Genesis
  pub file : Option (List ℕ)
  pub incoming : List Message

abbrev pub flag : Bool → ℕ
flag b = if b then 1 else 0

-- `initServer`, and `Network` in its thread. On a structure that is not set up, the network would use
-- lists that are not there.
unfoldable pub launch_network : World → Args → Option (Bool × Server)
launch_network w args =
    let (ready, server) =
      init_server w.mutex1 w.mutex2 (flag args.api) (flag args.mining) w.raw w.list_api
        w.list_mining in
    if not ready
    then none
    else network w.server_thread w.send_thread w.network_thread w.attempt w.attempt_first server
        args.ip args.port args.first_server_ip args.port_first_server

-- The node that waits for the network for ever, or the one whose loops begin.
pub data Launched : Type 0 where
  waits refuses : Launched
  runs : Node → Server → Launched

-- `LaunchTEK` up to there. It sees the status that `Network` leaves.
unfoldable pub launch_tek : Sha → World → Args → Option Launched
unfolding launch_network
launch_tek sha w args = do
  (code, server) ← launch_network w args
  if not (is_online server.status) then some waits else do
    started ←
        start_gestion sha server.status args.difficulty w.genesis args.load_blockchain w.file
          w.incoming []
    elim started [ none ↦ some refuses | some node ↦ some (runs node server) ]
