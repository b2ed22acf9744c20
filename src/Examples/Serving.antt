-- ===== src/Examples/Serving.antt =====
-- Requests from their bytes to their answers, and messages from node to node, on the data.
use tek.Prelude.{
  ℕ, ◌-◌, ◌≡◌, refl, true, false, none, some, List, [], ◌∷◌, ◌++◌, arith, length, take,
}
use tek.Bytes.{IsText, decimal}
use tek.Api.{server_count}
use tek.Api.Post.{post_request}
use tek.Api.Request.{blank_line}
use tek.Api.Resend.{resend}
use tek.Api.Resend.Whole.{resend-whole, resend-repeats}
use tek.Api.Serve.{message200, success_text, serve}
use tek.Api.Serve.Answers.{get_request, listing, sends, serve-post, serve-servers}
use tek.Network.Listen.{nobody, connection, accept_loop, read_threads}
use tek.Network.Listen.Serves.{Carries, read_threads-accept_loop}
use tek.Network.Send.All.{Turn, send_rounds}
use tek.Network.Send.All.Every.{Works, deliveries, send_rounds-all}
use tek.Examples.Data.{alice, bob}
use tek.Examples.Requests.{alice-IsValue, bob-IsValue, five-IsValue, five-atol, api0}
use tek.Examples.Network.{
  node_a, node_b, two_nodes, two_nodes-IsClients, node_a-IsShown, node_b-IsShown, one_digit, inbox0,
  hello, hello-IsMessage, reachable,
}

resend-whole_example :
    resend (some 1 ∷ some 0 ∷ some 2 ∷ []) 3 (7 ∷ 8 ∷ 9 ∷ []) ≡ some (7 ∷ 8 ∷ 9 ∷ [])
resend-whole_example = resend-whole 1 (0 ∷ 2 ∷ []) [] (7 ∷ 8 ∷ 9 ∷ []) refl

-- The byte 8 goes out twice.
resend-repeats_example :
    resend (some 2 ∷ none ∷ some 2 ∷ []) 3 (7 ∷ 8 ∷ 9 ∷ []) ≡ some (7 ∷ 8 ∷ 8 ∷ 9 ∷ [])
resend-repeats_example = resend-repeats 2 [] (7 ∷ 8 ∷ 9 ∷ []) (omega arith) (omega arith)

abbrev posting : List ℕ
posting = post_request alice bob (b'5' ∷ []) blank_line

serve-post_example :
    serve
      (λ t. false)
      1
      two_nodes
      0
      9
      api0
      []
      (some posting ∷ [])
      (sends 5 ((length success_text - 5) ∷ []) [])
    ≡ some (
      message200 ++ success_text,
      record api0 {
        outgoing_txs = record { sender = alice; receiver = bob; amount = 5; time = 9 } ∷ [];
      },
    )
serve-post_example =
    serve-post (λ t. false) 1 two_nodes 0 9 api0 [] alice bob (b'5' ∷ []) blank_line
      (take (length posting - 4) posting) 5 [] 5 ((length success_text - 5) ∷ []) [] alice-IsValue
      bob-IsValue five-IsValue five-atol (omega arith) (omega arith) refl refl

two_list : List ℕ
two_list = listing node_a (node_b ∷ []) node_a-IsShown (node_b-IsShown, tt)

serve-servers_example :
    serve
      (λ t. false)
      3
      two_nodes
      0
      9
      api0
      []
      (some (get_request server_count blank_line) ∷ [])
      (sends (length two_list) [] [])
    ≡ some (message200 ++ two_list, api0)
unfolding two_list
serve-servers_example =
    serve-servers (λ t. false) 3 two_nodes 0 node_a (node_b ∷ []) 9 api0 [] blank_line
      (take 18 (get_request server_count blank_line)) [] (length two_list) [] [] (omega arith)
      two_nodes-IsClients node_a-IsShown (node_b-IsShown, tt) one_digit (omega arith) (omega arith)
      refl (omega arith)

abbrev turn : Turn
turn = record {
  started = true;
  reach = λ address. reachable 0;
  fd = 3;
  answers = some 10 ∷ none ∷ [];
  closes = true;
}

turn-Works : Works hello node_a.address turn
turn-Works = record {
  starts = refl;
  up = refl;
  own = refl;
  answer = none;
  answers = [];
  takes = refl;
}

send_rounds-all_example :
    send_rounds 3 0
      ((turn ∷ turn ∷ []) ∷ [])
      (record { known_servers = two_nodes; outgoing = hello ∷ [] })
    ≡ some (
      record { known_servers = two_nodes; outgoing = [] },
      deliveries (node_a ∷ node_b ∷ []) hello ∷ [],
    )
send_rounds-all_example =
    send_rounds-all 0 two_nodes 0 (node_a ∷ node_b ∷ []) two_nodes-IsClients (hello ∷ [])
      ((turn ∷ turn ∷ []) ∷ []) (hello-IsMessage, tt) ((turn-Works, (turn-Works, tt)), tt)

abbrev hello_socket : List (List ℕ)
hello_socket = (255 ∷ 1 ∷ []) ∷ (0 ∷ 0 ∷ 0 ∷ 0 ∷ 0 ∷ 0 ∷ []) ∷ (0 ∷ 1 ∷ []) ∷ []

hello_socket-Carries : Carries hello_socket hello
unfolding tek.Message.message_to_bin tek.Bytes.le_bytes tek.Bytes.fetch
hello_socket-Carries = record {
  formed = hello-IsMessage;
  for_node = refl;
  bytes = 255 ∷ 1 ∷ 0 ∷ 0 ∷ 0 ∷ 0 ∷ 0 ∷ 0 ∷ 0 ∷ 1 ∷ [];
  rest = [];
  written = refl;
  arrives = refl;
}

read_threads-accept_loop_example :
    read_threads 2 2 reachable 0 inbox0
      (accept_loop (nobody ∷ connection hello_socket true ∷ connection [] false ∷ []))
    ≡ some (record inbox0 { incoming = hello ∷ [] })
read_threads-accept_loop_example =
    read_threads-accept_loop 2 2 reachable 0
      (nobody ∷ connection hello_socket true ∷ connection [] false ∷ []) (hello ∷ []) inbox0
      (hello_socket-Carries, tt)
