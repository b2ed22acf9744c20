-- ===== src/Examples/Network.antt =====
-- The list of nodes and their messages, on lists of one and two.
use tek.Memory.{Heap, set}
use tek.Prelude.{
  ℕ, ◌+◌, ◌≤◌, ◌≡◌, refl, true, none, some, [], ◌∷◌, false, arith, length, length-replicate,
  replicate, ◌>>=◌,
}
use tek.Bytes.{IsText, decimal, le_bytes}
use tek.Message.{Message, message_to_bin}
use tek.Message.Binary.{IsMessage}
use tek.Network.Clients.{Attempt, ClientInfo, remove_client}
use tek.Network.Clients.Ring.{Member, IsClients, Sentinel, cell, head_cell}
use tek.Network.Clients.Changes.{remove_client-IsClients}
use tek.Network.Discovery.{add_server_from_message, network_message}
use tek.Network.Discovery.Entries.{IsKnown}
use tek.Network.Discovery.Refresh.{fact}
use tek.Network.Discovery.Merge.{Knows}
use tek.Network.Discovery.Exchange.{add_server_from_message-merge}
use tek.Network.Listing.{size_key, list_key, list_end, server_list_to_json}
use tek.Network.Listing.Listed.{IsShown}
use tek.Network.Receive.{Inbox, read_thread, deliver}
use tek.Network.Start.{Server, starting}
use tek.Network.Start.Online.{IsPlace}
use tek.Network.Send.One.{
  send_message_for_one_client, send_message_for_one_client-deliver,
  send_message_for_one_client-unsent,
}

abbrev pub node_a : Member
node_a = record {
  addr = 1;
  address = record { hostname = some (b'a' ∷ 0 ∷ []); port = b'7' ∷ b'1' ∷ 0 ∷ 0 ∷ 0 ∷ 0 ∷ [] };
  api = 1;
  mining = 0;
}

abbrev pub node_b : Member
node_b = record node_a { addr = 2; mining = 1 }

abbrev pub sentinel0 : Sentinel
sentinel0 = record {
  address = record { hostname = none; port = replicate 6 0 };
  api = 0;
  mining = 0;
  prev = none;
}

abbrev nothing : Heap ClientInfo
nothing = record { cells = set (λ a. none) 0 (some (head_cell 0 0 sentinel0)); top = 1 }

abbrev pub one_node : Heap ClientInfo
one_node = record {
  cells = set (set (λ a. none) 0 (some (head_cell 0 1 sentinel0))) 1 (some (cell 0 node_a 0 0));
  top = 2;
}

abbrev pub two_nodes : Heap ClientInfo
two_nodes = record {
  cells =
      set (set (set (λ a. none) 0 (some (head_cell 0 1 sentinel0))) 1 (some (cell 0 node_a 2 0))) 2
        (some (cell 0 node_b 0 1));
  top = 3;
}

nothing-IsClients : IsClients nothing 0 []
nothing-IsClients = record {
  head = record { head = sentinel0; at = refl };
  linked = tt;
  apart = tt;
  distinct = tt;
  old = tt;
  old_sentinel = omega arith;
}

pub one_node-IsClients : IsClients one_node 0 (node_a ∷ [])
one_node-IsClients = record {
  head = record { head = sentinel0; at = refl };
  linked = (refl, tt);
  apart = (refl, tt);
  distinct = (tt, tt);
  old = (omega arith, tt);
  old_sentinel = omega arith;
}

pub two_nodes-IsClients : IsClients two_nodes 0 (node_a ∷ node_b ∷ [])
two_nodes-IsClients = record {
  head = record { head = sentinel0; at = refl };
  linked = (refl, (refl, tt));
  apart = (refl, (refl, tt));
  distinct = ((refl, tt), (tt, tt));
  old = (omega arith, (omega arith, tt));
  old_sentinel = omega arith;
}

node_a-IsKnown : IsKnown node_a
node_a-IsKnown = record {
  address = record {
    name = b'a' ∷ [];
    text = ((omega arith, omega arith), tt);
    host = refl;
    digits = b'7' ∷ b'1' ∷ [];
    digits_text = ((omega arith, omega arith), ((omega arith, omega arith), tt));
    digits_size = omega arith;
    port = refl;
  };
  short = omega arith;
  api = omega arith;
  mining = omega arith;
}

remove_client-IsClients_example :
    (h' : Heap ClientInfo) × (remove_client two_nodes 1 ≡ some (true, h'))
    × IsClients h' 0 (node_b ∷ [])
    × (h'.cells 1 ≡ none)
remove_client-IsClients_example =
    remove_client-IsClients two_nodes 0 [] node_a (node_b ∷ []) two_nodes-IsClients

zeros_length : (n : ℕ) → length {A = ℕ} (replicate n 0) ≡ n
zeros_length n = length-replicate {A = ℕ} n 0

abbrev pub reachable : ℕ → Attempt
reachable k = record { socket = true; option = true; resolved = true; connected = true }

add_server_from_message-merge_example :
    (h' : Heap ClientInfo) × ((network_message 2 one_node 0 (λ n. replicate n 0)
        >>= add_server_from_message 2 2 reachable nothing 0)
      ≡ some h')
    × Knows 0 h' (fact node_a ∷ []) 1
add_server_from_message-merge_example =
    add_server_from_message-merge 2 2 reachable one_node 0 (node_a ∷ []) (λ n. replicate n 0)
      nothing 0 [] zeros_length (omega arith) (omega arith) one_node-IsClients (node_a-IsKnown, tt)
      nothing-IsClients tt

abbrev pub hello : Message
hello = record { type = 255; size_data = 1; payload = 1 ∷ [] }

pub hello-IsMessage : IsMessage hello
hello-IsMessage = record { kind = omega arith; size = refl; ull = omega arith }

abbrev pub inbox0 : Inbox
inbox0 = record { known_servers = nothing; incoming = [] }

-- The ten bytes of the message go out at once, and come in in three pieces.
send_message_for_one_client-deliver_example :
    (send_message_for_one_client
        (λ address. reachable 0)
        node_a.address
        3
        (some 10 ∷ none ∷ [])
        false
        hello
      ≡ some (0, 255 ∷ 1 ∷ 0 ∷ 0 ∷ 0 ∷ 0 ∷ 0 ∷ 0 ∷ 0 ∷ 1 ∷ []))
    × (read_thread 2 2 reachable 0 inbox0
          ((255 ∷ 1 ∷ []) ∷ (0 ∷ 0 ∷ 0 ∷ 0 ∷ 0 ∷ 0 ∷ []) ∷ (0 ∷ 1 ∷ []) ∷ [])
        ≡ some (record inbox0 { incoming = hello ∷ [] }))
unfolding deliver message_to_bin le_bytes tek.Bytes.fetch
send_message_for_one_client-deliver_example =
    send_message_for_one_client-deliver (λ address. reachable 0) node_a.address refl 3 refl false
      hello hello-IsMessage none [] 2 2 reachable 0 inbox0
      ((255 ∷ 1 ∷ []) ∷ (0 ∷ 0 ∷ 0 ∷ 0 ∷ 0 ∷ 0 ∷ []) ∷ (0 ∷ 1 ∷ []) ∷ [])
      (255 ∷ 1 ∷ 0 ∷ 0 ∷ 0 ∷ 0 ∷ 0 ∷ 0 ∷ 0 ∷ 1 ∷ []) [] refl refl

send_message_for_one_client-unsent_example :
    send_message_for_one_client (λ address. reachable 0) node_a.address 3 (none ∷ []) true hello
    ≡ some (0, [])
send_message_for_one_client-unsent_example =
    send_message_for_one_client-unsent (λ address. reachable 0) node_a.address refl 3 refl true
      hello hello-IsMessage []

abbrev pub server0 : Server
server0 = record {
  status = starting;
  api = 1;
  mining = 0;
  address = record { hostname = none; port = [] };
  known_servers = 0;
  clients = nothing;
}

pub a-IsPlace : IsPlace (b'a' ∷ []) none
a-IsPlace = record {
  text = ((omega arith, omega arith), tt);
  short = omega arith;
  digits = ground arith;
  size = omega arith;
}

pub b-IsPlace : IsPlace (b'b' ∷ []) (some (b'9' ∷ []))
b-IsPlace = record {
  text = ((omega arith, omega arith), tt);
  short = omega arith;
  digits = ((omega arith, omega arith), tt);
  size = omega arith;
}

pub node_a-IsShown : IsShown node_a
unfolding tek.Network.Listing.signed_decimal tek.Bytes.decimal
node_a-IsShown = record { address = node_a-IsKnown.address; room = omega arith }

pub node_b-IsShown : IsShown node_b
unfolding tek.Network.Listing.signed_decimal tek.Bytes.decimal
node_b-IsShown = record { address = node_a-IsKnown.address; room = omega arith }

pub one_digit : length (decimal (1 + 1)) ≤ 5
unfolding decimal
one_digit = omega arith
