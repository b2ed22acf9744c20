-- ===== src/Network/Listing/Listed.antt =====
-- The list of known nodes in JSON holds each of them.
use tek.Memory.{Heap}
use tek.Prelude.{
  ℕ, zero, suc, ◌+◌, ◌≤◌, ◌<◌, ◌≡◌, refl, sym, ap, ◌∙◌, none, some, List, [], ◌∷◌, ◌++◌, arith, All,
  length, length-append, append_assoc, append-nil, le→leb,
}
use tek.Bytes.{c_string, decimal}
use tek.Bytes.Text.{c_string-append}
use tek.Json.{print_behind}
use tek.Network.Clients.{ClientInfo, list_len}
use tek.Network.Clients.Ring.{Member, cell, IsHead, IsClients, Seg, first_of}
use tek.Network.Clients.Search.{IsAddress, list_len-length}
use tek.Network.Listing.{
  signed_decimal, server_json, server_to_json, all_loop, all_server_to_json, server_list_to_json,
  size_key, list_key, list_end,
}

-- A client whose numbers have the room that is left for them.
pub record IsShown (n : Member) : Type 0 where
  pub address : IsAddress n.address
  pub room : length (signed_decimal n.api) + length (signed_decimal n.mining) ≤ 12

abbrev pub shown : (n : Member) → IsShown n → List ℕ
shown n ok = server_json ok.address.name ok.address.digits n.api n.mining

print_fits :
    (size : ℕ) (written text : List ℕ)
    → length written + length text + 1 ≤ size
    → print_behind size written text ≡ some (written ++ text)
unfolding print_behind
print_fits size written text fits = rw (le→leb _ _ fits) refl

length-shown :
    (name digits : List ℕ) (api mining : ℕ)
    → length (server_json name digits api mining)
      ≡ 40
        + length name
        + length digits
        + length (signed_decimal api)
        + length (signed_decimal mining)
length-shown name digits api mining = simp (length-append) (omega arith)

server_to_json-shown :
    (n : Member) (s next prev : ℕ) (ok : IsShown n)
    → server_to_json (cell s n next prev) ≡ some (shown n ok)
unfolding server_to_json
server_to_json-shown n s next prev ok =
    let a = ok.address in
    let digits : c_string n.address.port ≡ some a.digits =
      rw a.port (c_string-append a.digits _ a.digits_text) in
    rw (a.host, c_string-append a.name [] a.text, digits)
      (print_fits _ [] (shown n ok)
        (omega (arith, length-shown a.name a.digits n.api n.mining, ok.room)))

-- The clients after the first one.
abbrev pub tail_text : (ns : List Member) → All IsShown ns → List ℕ
tail_text [] ok = []
tail_text (n ∷ ns) ok = b',' ∷ (shown n ok.0 ++ tail_text ns ok.1)

all_loop-tail :
    (fuel : ℕ) (h : Heap ClientInfo) (s p : ℕ) (ns : List Member) {first : ℕ} (res : List ℕ)
    → length ns < fuel
    → IsHead h.cells s first
    → Seg s h.cells p ns s
    → (ok : All IsShown ns) → all_loop fuel h (first_of s ns) res ≡ some (res ++ tail_text ns ok)
unfolding all_loop
all_loop-tail zero h s p ns res fits head l ok = absurd (omega arith)
all_loop-tail (suc fuel) h s p [] res fits head l ok = rw head.at (ap some (sym (append-nil res)))
all_loop-tail (suc fuel) h s p (n ∷ ns) res fits head l ok =
    let text = b',' ∷ shown n ok.0 in
    let fit = print_fits (length res + length (shown n ok.0) + 2) res text (omega arith) in
    let more = all_loop-tail fuel h s n.addr ns (res ++ text) (omega arith) head l.1 ok.1 in
    rw (l.0, server_to_json-shown n s (first_of s ns) p ok.0, fit, more)
      (ap some (append_assoc res text (tail_text ns ok.1)))

-- On a list of clients with fuel for one more, where each client has a host name, a port, and two
-- numbers of at most 12 characters together, and where the size has at most 5 digits:
-- `ServerListToJSON` stays inside its buffers for one client or more, and its text has the size of
-- the list and then all clients in their order, with a comma between two.
pub server_list_to_json-listed :
    (fuel : ℕ) (h : Heap ClientInfo) (s : ℕ) (n : Member) (ns : List Member)
    → length ns + 1 < fuel
    → IsClients h s (n ∷ ns)
    → (first : IsShown n) (rest : All IsShown ns) → length (decimal (length ns + 1)) ≤ 5
    → server_list_to_json fuel h s
      ≡ some (
          size_key
          ++ (decimal (length ns + 1)
              ++ (list_key ++ ((shown n first ++ tail_text ns rest) ++ list_end))))
unfolding server_list_to_json all_server_to_json
server_list_to_json-listed fuel h s n ns fits ok first rest size =
    let all = shown n first ++ tail_text ns rest in
    let count : list_len fuel h s ≡ some (length ns + 1) =
      list_len-length fuel h s (n ∷ ns) (omega arith) ok ∙ ap some (omega arith) in
    let more =
      all_loop-tail fuel h s n.addr ns (shown n first) (omega arith) ok.head ok.linked.1 rest in
    rw
      (
        count,
        ok.head.at,
        ok.head.at,
        ok.linked.0,
        server_to_json-shown n s (first_of s ns) s first,
        more,
      )
      (print_fits _ [] (size_key ++ (decimal (length ns + 1) ++ (list_key ++ (all ++ list_end)))) (
        rw
          (
            length-append (decimal (length ns + 1)) (list_key ++ (all ++ list_end)),
            length-append all list_end,
          )
          (omega arith)))

-- `ServerListToJSON` of a list without clients measures NULL, which is undefined.
pub server_list_to_json-empty :
    (fuel : ℕ) (h : Heap ClientInfo) (s : ℕ)
    → 0 < fuel
    → IsClients h s []
    → server_list_to_json fuel h s ≡ none
unfolding server_list_to_json all_server_to_json
server_list_to_json-empty fuel h s fits ok =
    rw (list_len-length fuel h s [] fits ok, ok.head.at, ok.head.at, ok.head.at) refl
