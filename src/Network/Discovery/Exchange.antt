-- ===== src/Network/Discovery/Exchange.antt =====
-- A node gets the message of another, and both know what the first knew and what it was told.
use mathlib.Core.Path.{subst}
use tek.Memory.{Heap}
use tek.Prelude.{
  ℕ, zero, suc, ◌+◌, ◌<◌, ◌≡◌, refl, sym, ap, ◌∙◌, true, false, some, List, [], ◌∷◌, ◌++◌, arith,
  All, length, drop, ◌>>=◌, ltb, lt→ltb, map, drop-append,
}
use tek.Message.{Message, type_network}
use tek.Network.Clients.{Attempt, ClientInfo}
use tek.Network.Clients.Ring.{Member, IsClients}
use tek.Network.Clients.Search.{length-port, name_of, name_of-text}
use tek.Network.Discovery.{read_entry, learn_loop, add_server_from_message, network_message}
use tek.Network.Discovery.Entries.{
  IsKnown, read_entry_lem, entry_of, entry_of-append, length-entry_of,
}
use tek.Network.Discovery.Announce.{entries, length-entries, network_message-entries}
use tek.Network.Discovery.Refresh.{fact}
use tek.Network.Discovery.Merge.{Knows, address_eq, learn-merge_one, merge}

drop_nil : (n : ℕ) → drop {A = ℕ} n [] ≡ []
drop_nil zero = refl
drop_nil (suc n) = refl

drop_add : (a b : ℕ) (xs : List ℕ) → drop (a + b) xs ≡ drop b (drop a xs)
drop_add zero b xs = let e : 0 + b ≡ b = omega arith in ap (λ k. drop k xs) e
drop_add (suc a) b [] = drop_nil (suc a + b) ∙ sym (drop_nil b)
drop_add (suc a) b (x ∷ xs) =
    let e : suc a + b ≡ suc (a + b) = omega arith in ap (λ k. drop k (x ∷ xs)) e ∙ drop_add a b xs

read_entry-entries :
    (m : Member) (ms : List Member)
    → IsKnown m
    → read_entry (entries (m ∷ ms))
      ≡ some (record {
        address = m.address;
        api = m.api;
        mining = m.mining;
        taken = 17 + length (name_of m.address);
      })
read_entry-entries m ms ok =
    let name = ok.address.name in
    let taken = 17 + length name in
    subst
      (λ t.
        read_entry (entry_of t m.address.port m.api m.mining (entries ms))
        ≡ some
            (record { address = m.address; api = m.api; mining = m.mining; taken = 17 + length t }))
      (sym (name_of-text m.address ok.address))
      (read_entry_lem name m.address.port m.api m.mining (entries ms) ok.short
          (length-port m.address ok.address) ok.api ok.mining
        ∙ ap (λ a. some (record { address = a; api = m.api; mining = m.mining; taken = taken }))
            (address_eq m.address ok.address))

learn_loop-merge :
    (fuel find_fuel : ℕ) (attempts : ℕ → Attempt) (h : Heap ClientInfo) (s : ℕ)
    (ns ms : List Member) (message : Message) (offset : ℕ)
    → length ms < fuel
    → length ns + length ms < find_fuel
    → IsClients h s ns
    → All IsKnown ns
    → All IsKnown ms
    → message.size_data ≡ offset + length (entries ms)
    → drop offset message.payload ≡ entries ms
    → (h' : Heap ClientInfo) × (learn_loop fuel find_fuel attempts h s message offset ≡ some h')
      × Knows s h' (merge attempts (map fact ms) (map fact ns)) (length ns + length ms)
unfolding learn_loop
learn_loop-merge zero find_fuel attempts h s ns ms message offset f1 f2 ok known told size bytes =
    absurd (omega arith)
learn_loop-merge (suc fuel) find_fuel attempts h s ns [] message offset f1 f2 ok known told size
      bytes =
    let over : ltb offset message.size_data ≡ false = ground (arith, size) in
    (
      h,
      rw over refl,
      record { members = ns; clients = ok; known = known; facts = refl; few = omega arith },
    )
learn_loop-merge (suc fuel) find_fuel attempts h s ns (m ∷ ms) message offset f1 f2 ok known told
      size bytes =
    let taken = 17 + length (name_of m.address) in
    let whole = length-entries m ms told.0 in
    let more : ltb offset message.size_data ≡ true = lt→ltb _ _ (omega (arith, size, whole)) in
    let entry = entry_of (name_of m.address) m.address.port m.api m.mining [] in
    let entry_size : taken ≡ length entry =
      sym
        (length-entry_of _ m.address.port m.api m.mining (length-port m.address told.0.address)) in
    let rest : drop (offset + taken) message.payload ≡ entries ms =
      drop_add offset taken message.payload
      ∙ ap (λ bs. drop taken bs) bytes
      ∙ ap (λ bs. drop taken bs)
          (sym (entry_of-append _ m.address.port m.api m.mining (entries ms)))
      ∙ ap (λ k. drop k (entry ++ entries ms)) entry_size
      ∙ drop-append entry (entries ms) in
    let (h1, learned, k1) =
      learn-merge_one find_fuel (attempts 0) h s ns m taken (omega arith) ok known told.0 in
    let (h2, ran, k2) =
      learn_loop-merge fuel find_fuel (λ k. attempts (k + 1)) h1 s k1.members ms message
        (offset + taken) (omega arith) (omega (arith, k1.few)) k1.clients k1.known told.1
        (omega (arith, size, whole)) rest in
    (
      h2,
      rw (more, bytes, read_entry-entries m ms told.0, learned) ran,
      record {
        members = k2.members;
        clients = k2.clients;
        known = k2.known;
        facts = k2.facts ∙ ap (merge (λ k. attempts (k + 1)) (map fact ms)) k1.facts;
        few = omega (arith, k1.few, k2.few);
      },
    )

-- A node gets the message that another makes of its clients: `addServerFromMessage` ends, reads
-- inside the message, and leaves a list of clients. It says what `merge` makes of the two lists: each
-- entry in its turn is taken over where the node is known, and added where it is not and was reached.
-- The entries of both lists are well formed, and the fuel is above their number.
pub add_server_from_message-merge :
    (fuel find_fuel : ℕ) (attempts : ℕ → Attempt) (sender : Heap ClientInfo) (s0 : ℕ)
    (ms : List Member) (junk : ℕ → List ℕ) (h : Heap ClientInfo) (s : ℕ) (ns : List Member)
    → ((n : ℕ) → length (junk n) ≡ n)
    → length ms < fuel
    → length ns + length ms < find_fuel
    → IsClients sender s0 ms
    → All IsKnown ms
    → IsClients h s ns
    → All IsKnown ns
    → (h' : Heap ClientInfo) × ((network_message fuel sender s0 junk
          >>= add_server_from_message fuel find_fuel attempts h s)
        ≡ some h')
      × Knows s h' (merge attempts (map fact ms) (map fact ns)) (length ns + length ms)
unfolding add_server_from_message
add_server_from_message-merge fuel find_fuel attempts sender s0 ms junk h s ns sized f1 f2 other
      told ok known =
    let message : Message = record {
      type = type_network;
      size_data = length (entries ms);
      payload = entries ms;
    } in
    let (h', ran, knows) =
      learn_loop-merge fuel find_fuel attempts h s ns ms message 0 f1 f2 ok known told (omega arith)
        refl in
    (h', rw (network_message-entries fuel sender s0 ms junk sized f1 other told) ran, knows)
