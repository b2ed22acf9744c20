-- ===== src/Api/Serve/Answers.antt =====
-- What a client gets to see of its request.
use tek.Memory.{Heap}
use tek.Prelude.{
  ℕ, ◌+◌, ◌≤◌, ◌<◌, ◌≡◌, refl, ap, ◌∙◌, Bool, Option, some, List, [], ◌∷◌, ◌++◌, ◌==◌,
  if◌then◌else◌, ◌>>=◌, length, drop, map, append_assoc, append-nil, length-append, arith, All,
  Bool-cases, inl, inr,
}
use tek.Bytes.{IsText, block, memcmp, decimal}
use tek.Bytes.Numerals.{atol}
use tek.Bytes.Text.{text_eq}
use tek.Network.Clients.{ClientInfo}
use tek.Network.Clients.Ring.{Member, IsClients}
use tek.Network.Listing.{server_list_to_json, size_key, list_key, list_end}
use tek.Network.Listing.Listed.{IsShown, shown, tail_text, server_list_to_json-listed}
use tek.Api.{
  Api, Answer, text, success, error, worker, answer_path, find_path, to_blank, up_to_blank,
  server_count,
}
use tek.Api.Query.{IsValue}
use tek.Api.Post.{get_slash, post_request, up_to_blank-value, worker-post}
use tek.Api.Request.{buffer_size, blank_line}
use tek.Api.Request.Pieces.{read_request-end}
use tek.Api.Resend.Whole.{total, resend-whole}
use tek.Api.Serve.{message200, success_text, error_text, send_answer, respond, serve}

-- The request for a path.
abbrev pub get_request : (path rest : List ℕ) → List ℕ
get_request path rest = get_slash ++ (path ++ 32 ∷ rest)

pub find_path-get :
    (path rest : List ℕ) → IsValue path → find_path (get_request path rest) ≡ some path
unfolding find_path to_blank up_to_blank
find_path-get path rest ok =
    let layout : block (get_request path rest) ≡ get_slash ++ (path ++ 32 ∷ block rest) =
      simp (append_assoc) in
    ap (λ bytes. to_blank bytes >>= λ at. up_to_blank (drop 2 at)) layout
    ∙ rw (up_to_blank-value path _ ok) (ap some (append-nil path))

-- The calls of `send` for a status line and a message that they take whole.
abbrev pub sends : (q : ℕ) (qs : List ℕ) (others : List (Option ℕ)) → List (Option ℕ)
sends q qs others = some (length message200) ∷ some q ∷ (map some qs ++ others)

send_answer-whole :
    (q : ℕ) (qs : List ℕ) (others : List (Option ℕ)) (message : List ℕ)
    → total (q ∷ qs) ≡ length message
    → send_answer (sends q qs others) message ≡ some (message200 ++ message)
unfolding send_answer
send_answer-whole q qs others message e = rw (resend-whole q qs others message e) refl

module _ (g : List ℕ → Bool) (fuel : ℕ) (h : Heap ClientInfo) (list now : ℕ) (api : Api)
    (behind request : List ℕ) (ok : IsText request) (fits : length request < buffer_size)
    (head : List ℕ) (ends : request ≡ head ++ blank_line) where
  -- A request that one `read` delivers.
  serve-read :
      (reads : List (Option (List ℕ))) (answers : List (Option ℕ)) (answer : Answer) (api' : Api)
      → worker now (server_list_to_json fuel h list) api request behind ≡ some (answer, api')
      → serve g fuel h list now api behind (some request ∷ reads) answers
        ≡ (respond answers answer >>= λ sent. some (sent, api'))
  unfolding serve
  serve-read reads answers answer api' e =
      let any : 0 < length request = rw ends (omega (arith, length-append head blank_line)) in
      let full = read_request-end request ok fits any reads g [] head ends in rw (full, e) refl

-- What the client that posts a transaction of this amount gets to read.
abbrev pub reply : (amount : ℕ) → List ℕ
reply amount = if amount == 0 then error_text else success_text

-- A request that posts a transaction with a sender, a receiver and a number, in this order, each
-- without blanks, NUL and `&`, the number with a `&` behind it, in one `read` that is shorter than the
-- buffer and ends with an empty line: when the status line goes out at once and the message in any
-- parts, the client reads the status and whether it succeeded, and unless the number is 0 that
-- transaction is passed on, with the time of the clock. Nothing behind the path is read. `memcmp` is
-- taken to read no further than the first difference.
pub serve-post :
    (g : List ℕ → Bool) (fuel : ℕ) (h : Heap ClientInfo) (list now : ℕ) (api : Api)
    (behind s r a rest head : List ℕ) (n : ℕ) (reads : List (Option (List ℕ))) (q : ℕ) (qs : List ℕ)
    (others : List (Option ℕ))
    → IsValue s
    → IsValue r
    → IsValue a
    → atol a ≡ some n
    → IsText (post_request s r a rest)
    → length (post_request s r a rest) < buffer_size
    → post_request s r a rest ≡ head ++ blank_line
    → total (q ∷ qs) ≡ length (reply n)
    → serve g fuel h list now api behind
        (some (post_request s r a rest) ∷ reads)
        (sends q qs others)
      ≡ some (
        message200 ++ reply n,
        if n == 0 then api else record api {
          outgoing_txs =
              api.outgoing_txs ++ record { sender = s; receiver = r; amount = n; time = now } ∷ [];
        },
      )
unfolding respond
serve-post g fuel h list now api behind s r a rest head n reads q qs others oks okr oka number ok
      fits ends parts =
    let servers = server_list_to_json fuel h list in
    let posted = record api {
      outgoing_txs =
          api.outgoing_txs ++ record { sender = s; receiver = r; amount = n; time = now } ∷ [];
    } in
    let read =
      serve-read g fuel h list now api behind (post_request s r a rest) ok fits head ends reads
        (sends q qs others) in
    let done = worker-post s r a n oks okr oka number now servers api rest behind in
    elim (Bool-cases (n == 0)) [
      | inl e ↦
          let sent = send_answer-whole q qs others error_text (rw e at parts) in
          rw e (read error api (rw e at done) ∙ rw sent refl)
      | inr e ↦
          let sent = send_answer-whole q qs others success_text (rw e at parts) in
          rw e (read success posted (rw e at done) ∙ rw sent refl)
    ]

worker-servers :
    (now : ℕ) (message : List ℕ) (api : Api) (rest behind : List ℕ)
    → worker now (some message) api (get_request server_count rest) behind
      ≡ some (text message, api)
unfolding worker answer_path memcmp text_eq
worker-servers now message api rest behind =
    rw (find_path-get server_count rest (ground arith)) refl

abbrev pub listing : (n : Member) (ns : List Member) → IsShown n → All IsShown ns → List ℕ
listing n ns first tail =
    size_key
    ++ (decimal (length ns + 1) ++ (list_key ++ ((shown n first ++ tail_text ns tail) ++ list_end)))

-- A request for the list of nodes, in one `read` that is shorter than the buffer and ends with an
-- empty line, when there is at least one client, the two numbers of each client are shown with at
-- most twelve characters together, and the count of the clients with at most five: when the status
-- line goes out at once and the message in any parts, the client reads the status and then all
-- clients in their order, as `ServerListToJSON` writes them, and nothing changes. `memcmp` is taken
-- to read no further than the first difference.
pub serve-servers :
    (g : List ℕ → Bool) (fuel : ℕ) (h : Heap ClientInfo) (s : ℕ) (n : Member) (ns : List Member)
    (now : ℕ) (api : Api) (behind rest head : List ℕ) (reads : List (Option (List ℕ))) (q : ℕ)
    (qs : List ℕ) (others : List (Option ℕ))
    → length ns + 1 < fuel
    → IsClients h s (n ∷ ns)
    → (first : IsShown n) (tail : All IsShown ns) → length (decimal (length ns + 1)) ≤ 5
    → IsText (get_request server_count rest)
    → length (get_request server_count rest) < buffer_size
    → get_request server_count rest ≡ head ++ blank_line
    → total (q ∷ qs) ≡ length (listing n ns first tail)
    → serve g fuel h s now api behind
        (some (get_request server_count rest) ∷ reads)
        (sends q qs others)
      ≡ some (message200 ++ listing n ns first tail, api)
unfolding respond
serve-servers g fuel h s n ns now api behind rest head reads q qs others enough ok first tail size
      text_ok fits ends parts =
    let message = listing n ns first tail in
    let servers : server_list_to_json fuel h s ≡ some message =
      server_list_to_json-listed fuel h s n ns enough ok first tail size in
    let sent = send_answer-whole q qs others message parts in
    serve-read g fuel h s now api behind (get_request server_count rest) text_ok fits head ends
      reads (sends q qs others) (text message) api
      (rw servers (worker-servers now message api rest behind))
    ∙ rw sent refl
