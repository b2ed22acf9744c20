-- ===== src/Node/Start.antt =====
-- Projet/Noeud_de_gestion/gestion.c: what `gestion` does before its loop, and a round of
-- `save_worker`.
pub mod Again
use tek.Prelude.{ℕ, Bool, true, false, not, Option, none, some, List, [], ◌>>=◌, if◌then◌else◌}
use tek.Hash.{Sha}
use tek.Transaction.{init_list_txs}
use tek.Block.{Block}
use tek.Blockchain.{Blockchain, load_blockchain, save_blockchain}
use tek.Blockchain.Genesis.{init_blockchain}
use tek.Message.{Message}
use tek.Network.Start.{Status, online}
use tek.Node.{Node}

-- The file `bcsave.data` after a round. `opens` says whether it can be opened.
unfoldable pub save_worker : (opens : Bool) → (file : Option (List ℕ)) → Node → Option (List ℕ)
save_worker opens file node = if opens then some (save_blockchain node.bc) else file

-- What `initBlockchain` depends on: the clock, the memory of the new block, the bytes behind the
-- array of `testproof`, and the order of the steps of its thread.
pub record Genesis : Type 0 where
  pub now : ℕ
  pub junk : Block
  pub slack : ℕ
  pub schedule : List ℕ

abbrev pub new_blockchain : Sha → (difficulty : ℕ) → Genesis → Option Blockchain
new_blockchain sha difficulty g = init_blockchain sha difficulty g.now g.junk g.slack g.schedule

-- The chain that the node begins with. A file that cannot be opened is `none`.
unfoldable pub first_blockchain :
    Sha
    → (difficulty : ℕ) → Genesis
    → (load_bc : Bool) → (file : Option (List ℕ)) → Option Blockchain
first_blockchain sha difficulty g load_bc none = new_blockchain sha difficulty g
first_blockchain sha difficulty g load_bc (some bytes) =
    if load_bc then load_blockchain bytes else new_blockchain sha difficulty g

abbrev pub is_online : Status → Bool
is_online status = elim status [ Status.online ↦ true | _ ↦ false ]

-- The node as the loop finds it, with what the queues of the network hold then. `none` inside `some`
-- is `EXIT_FAILURE`.
unfoldable pub start_gestion :
    Sha
    → Status
    → (difficulty : ℕ) → Genesis
    → (load_bc : Bool) → (file : Option (List ℕ)) → (incoming outgoing : List Message)
    → Option (Option Node)
unfolding first_blockchain
start_gestion sha status difficulty g load_bc file incoming outgoing =
    if not (is_online status) then some none else do
      bc ← first_blockchain sha difficulty g load_bc file
      some (
          some (record {
            bc = bc;
            tl = init_list_txs;
            incoming = incoming;
            outgoing = outgoing;
            api_txs = [];
            mining_blocks = [];
          }))
