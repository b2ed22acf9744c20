-- ===== src/Network/Discovery/Announce.antt =====
-- The message of `sendNetwork` lists the clients.
use mathlib.Core.Path.{subst}
use tek.Memory.{Heap}
use tek.Prelude.{
  ℕ, zero, suc, ◌+◌, ◌≤◌, ◌<◌, ◌≡◌, refl, sym, ap, ◌∙◌, some, List, [], ◌∷◌, ◌++◌, arith, All,
  length, length-append, append_assoc,
}
use tek.Bytes.Text.{c_string-append}
use tek.Message.{type_network}
use tek.Message.Binary.{create_message-whole}
use tek.Network.Clients.{ClientInfo}
use tek.Network.Clients.Ring.{Member, cell, IsHead, IsClients, Seg, first_of}
use tek.Network.Clients.Search.{length-port, name_of, name_of-text}
use tek.Network.Discovery.{entry_room, size_loop, write_entry, write_loop, network_message}
use tek.Network.Discovery.Entries.{
  IsKnown, entry_of, entry_of-append, length-entry_of, write_entry_lem,
}

-- The clients one behind the other.
abbrev pub entries : List Member → List ℕ
entries [] = []
entries (n ∷ ns) = entry_of (name_of n.address) n.address.port n.api n.mining (entries ns)

pub length-entries :
    (n : Member) (ns : List Member)
    → IsKnown n
    → length (entries (n ∷ ns)) ≡ 17 + length (name_of n.address) + length (entries ns)
length-entries n ns ok =
    let name = name_of n.address in
    let entry = entry_of name n.address.port n.api n.mining [] in
    rw⁻¹ (entry_of-append name n.address.port n.api n.mining (entries ns)) (
      length-append entry (entries ns)
      ∙ ap (λ k. k + length (entries ns))
          (length-entry_of name n.address.port n.api n.mining (length-port n.address ok.address)))

room_lem :
    (n : Member) (s next prev : ℕ)
    → IsKnown n
    → entry_room (cell s n next prev) ≡ some (17 + length (name_of n.address))
unfolding entry_room
room_lem n s next prev ok =
    let name = ok.address.name in
    let room : entry_room (cell s n next prev) ≡ some (17 + length name) =
      rw (ok.address.host, c_string-append name [] ok.address.text) (ap some (omega arith)) in
    room ∙ ap (λ t. some (17 + length t)) (sym (name_of-text n.address ok.address))

size_loop-length :
    (fuel : ℕ) (h : Heap ClientInfo) (s p : ℕ) (ns : List Member) {first : ℕ} (size : ℕ)
    → length ns < fuel
    → IsHead h.cells s first
    → Seg s h.cells p ns s
    → All IsKnown ns
    → size_loop fuel h (first_of s ns) size ≡ some (size + length (entries ns))
unfolding size_loop
size_loop-length zero h s p ns size fits head l ok = absurd (omega arith)
size_loop-length (suc fuel) h s p [] size fits head l ok = rw head.at (ap some (omega arith))
size_loop-length (suc fuel) h s p (n ∷ ns) size fits head l ok =
    rw
      (
        l.0,
        room_lem n s (first_of s ns) p ok.0,
        size_loop-length fuel h s n.addr ns (size + (17 + length (name_of n.address))) (omega arith)
            head l.1 ok.1,
      )
      (ap some (omega (arith, length-entries n ns ok.0)))

write_entry-entry :
    (n : Member) (s next prev : ℕ) (text tail : List ℕ)
    → IsKnown n
    → 17 + length (name_of n.address) ≤ length tail
    → (tail' : List ℕ) × (write_entry (cell s n next prev) (length text) (text ++ tail)
        ≡ some (
          length text + 17 + length (name_of n.address),
          (text ++ entry_of (name_of n.address) n.address.port n.api n.mining []) ++ tail',
        ))
      × (17 + length (name_of n.address) + length tail' ≡ length tail)
write_entry-entry n s next prev text tail ok =
    subst
      (λ name.
        17 + length name ≤ length tail
        → (tail' : List ℕ) × (write_entry (cell s n next prev) (length text) (text ++ tail)
            ≡ some (
              length text + 17 + length name,
              (text ++ entry_of name n.address.port n.api n.mining []) ++ tail',
            ))
          × (17 + length name + length tail' ≡ length tail))
      (sym (name_of-text n.address ok.address))
      (write_entry_lem (cell s n next prev) ok.address.name text tail ok.address.text
        ok.address.host ok.short (length-port n.address ok.address))

write_loop-entries :
    (fuel : ℕ) (h : Heap ClientInfo) (s p : ℕ) (ns : List Member) {first : ℕ} (text tail : List ℕ)
    → length ns < fuel
    → IsHead h.cells s first
    → Seg s h.cells p ns s
    → All IsKnown ns
    → length tail ≡ length (entries ns)
    → write_loop fuel h (first_of s ns) (length text) (text ++ tail) ≡ some (text ++ entries ns)
unfolding write_loop
write_loop-entries zero h s p ns text tail fits head l ok size = absurd (omega arith)
write_loop-entries (suc fuel) h s p [] text [] fits head l ok size = rw head.at refl
write_loop-entries (suc fuel) h s p [] text (x ∷ tail) fits head l ok size = absurd (omega arith)
write_loop-entries (suc fuel) h s p (n ∷ ns) text tail fits head l ok size =
    let name = name_of n.address in
    let entry = entry_of name n.address.port n.api n.mining [] in
    let whole = length-entries n ns ok.0 in
    let (tail', write, left) =
      write_entry-entry n s (first_of s ns) p text tail ok.0 (omega (arith, size, whole)) in
    let own =
      length-entry_of name n.address.port n.api n.mining (length-port n.address ok.0.address) in
    let at : length text + 17 + length name ≡ length (text ++ entry) =
      omega (arith, length-append text entry, own) in
    let more =
      write_loop-entries fuel h s n.addr ns (text ++ entry) tail' (omega arith) head l.1 ok.1
        (omega (arith, size, left, whole)) in
    rw (l.0, write, at, more)
      (ap some (
        append_assoc text entry (entries ns)
        ∙ ap (λ t. text ++ t) (entry_of-append name n.address.port n.api n.mining (entries ns))))

-- On a list of clients with well-formed entries, and with fuel for one more: `sendNetwork` stays
-- inside the buffer that it measured, and pushes the entries of all clients in their order.
pub network_message-entries :
    (fuel : ℕ) (h : Heap ClientInfo) (s : ℕ) (ns : List Member) (junk : ℕ → List ℕ)
    → ((n : ℕ) → length (junk n) ≡ n)
    → length ns < fuel
    → IsClients h s ns
    → All IsKnown ns
    → network_message fuel h s junk
      ≡ some (record { type = type_network; size_data = length (entries ns); payload = entries ns })
unfolding network_message
network_message-entries fuel h s ns junk sized fits ok known =
    let n = length (entries ns) in
    let measured : size_loop fuel h (first_of s ns) 0 ≡ some n =
      size_loop-length fuel h s s ns 0 fits ok.head ok.linked known ∙ ap some (omega arith) in
    let written : write_loop fuel h (first_of s ns) 0 (junk n) ≡ some (entries ns) =
      write_loop-entries fuel h s s ns [] (junk n) fits ok.head ok.linked known (sized n) in
    rw (ok.head.at, ok.head.at, measured, written)
      (create_message-whole type_network n (entries ns) refl)
