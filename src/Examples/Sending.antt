-- ===== src/Examples/Sending.antt =====
-- Clients that fail, on the data.
use tek.Memory.{Heap, set}
use tek.Prelude.{◌≡◌, refl, none, some, [], ◌∷◌, arith}
use tek.Network.Clients.{ClientInfo}
use tek.Network.Clients.Ring.{Member, IsClients, cell, head_cell}
use tek.Network.Send.{delivered, failed, send_message}
use tek.Network.Send.Skipped.{send_message-failed, send_message-wrong}
use tek.Examples.Network.{node_a, node_b, two_nodes, two_nodes-IsClients, sentinel0}

abbrev node_c : Member
node_c = record node_a { addr = 3 }

abbrev node_d : Member
node_d = record node_a { addr = 4 }

abbrev four_nodes : Heap ClientInfo
four_nodes = record {
  cells =
      set
        (set
          (set
            (set (set (λ a. none) 0 (some (head_cell 0 1 sentinel0))) 1 (some (cell 0 node_a 2 0)))
            2 (some (cell 0 node_b 3 1)))
          3 (some (cell 0 node_c 4 2)))
        4 (some (cell 0 node_d 0 3));
  top = 5;
}

four_nodes-IsClients : IsClients four_nodes 0 (node_a ∷ node_b ∷ node_c ∷ node_d ∷ [])
four_nodes-IsClients = record {
  head = record { head = sentinel0; at = refl };
  linked = (refl, (refl, (refl, (refl, tt))));
  apart = (refl, (refl, (refl, (refl, tt))));
  distinct = ((refl, (refl, (refl, tt))), ((refl, (refl, tt)), ((refl, tt), (tt, tt))));
  old = (omega arith, (omega arith, (omega arith, (omega arith, tt))));
  old_sentinel = omega arith;
}

send_message-failed_example :
    (h' : Heap ClientInfo) × (send_message 2 two_nodes 0 (failed ∷ delivered ∷ []) ≡ some h')
    × IsClients h' 0 (node_b ∷ [])
send_message-failed_example =
    send_message-failed 0 two_nodes 0 [] node_a node_b [] two_nodes-IsClients

send_message-wrong_example :
    (h' : Heap ClientInfo) × (send_message 3 four_nodes 0
        (failed ∷ failed ∷ delivered ∷ delivered ∷ [])
      ≡ some h')
    × IsClients h' 0 (node_b ∷ node_d ∷ [])
send_message-wrong_example =
    send_message-wrong 0 four_nodes 0 [] node_a node_b node_c node_d [] four_nodes-IsClients
