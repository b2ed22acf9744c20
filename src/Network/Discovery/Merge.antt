-- ===== src/Network/Discovery/Merge.antt =====
-- What a node knows after it got the message of another.
use tek.Memory.{Heap}
use tek.Prelude.{
  ℕ, zero, suc, ◌+◌, ◌-◌, ◌≤◌, ◌<◌, ◌≡◌, refl, sym, ap, ◌∙◌, Bool, true, false, ◌&&◌, none, some,
  List, [], ◌∷◌, ◌++◌, arith, All, length, drop, replicate, Bool-cases, Option-cases, inl, inr,
  if◌then◌else◌, map,
}
use tek.Bytes.{block, c_string, write_at}
use tek.Bytes.Buffer.{write_at_start}
use tek.Bytes.Text.{c_string-append}
use tek.Network.Clients.{
  Address, Attempt, ClientInfo, port_size, add_client, add_reached, link_client,
}
use tek.Network.Clients.Ring.{Member, IsClients}
use tek.Network.Clients.Changes.{made, link_client-IsClients}
use tek.Network.Clients.Search.{IsAddress, same, find_in, find_client-find_in}
use tek.Network.Discovery.{learn}
use tek.Network.Discovery.Entries.{IsKnown}
use tek.Network.Discovery.Refresh.{
  Fact, fact, refresh, refresh_members, map-refresh_members, refresh-IsKnown,
  length-refresh_members, update_client-IsClients,
}

abbrev pub reached : Attempt → Bool
reached attempt = (attempt.socket && attempt.option) && (attempt.resolved && attempt.connected)

abbrev pub knows : Address → List Fact → Bool
knows addr [] = false
knows addr (k ∷ ks) = let rest = knows addr ks in if same addr k.address then true else rest

-- What is told of a node that is known is taken over; another node is added if it was reached.
abbrev pub merge_one : Attempt → Fact → List Fact → List Fact
merge_one attempt f ks =
    if knows f.address ks then refresh f ks else if reached attempt then f ∷ ks else ks

abbrev pub merge : (ℕ → Attempt) → List Fact → List Fact → List Fact
merge attempts [] ks = ks
merge attempts (f ∷ fs) ks = merge (λ k. attempts (k + 1)) fs (merge_one (attempts 0) f ks)

drop-replicate : (d n : ℕ) (a : ℕ) → drop d (replicate n a) ≡ replicate (n - d) a
drop-replicate zero n a = let e : n ≡ n - 0 = omega arith in ap (λ k. replicate k a) e
drop-replicate (suc d) zero a =
    let e : zero ≡ zero - suc d = omega arith in ap (λ k. replicate k a) e
drop-replicate (suc d) (suc n) a =
    let e : n - d ≡ suc n - suc d = omega arith in drop-replicate d n a ∙ ap (λ k. replicate k a) e

-- A copy of digits into a zeroed port.
pub write_at-digits :
    (digits : List ℕ)
    → length digits ≤ port_size
    → write_at 0 digits (replicate (port_size + 1) 0)
      ≡ some (digits ++ 0 ∷ replicate (port_size - length digits) 0)
write_at-digits digits fits =
    let left : port_size + 1 - length digits ≡ suc (port_size - length digits) =
      omega (arith, fits) in
    write_at_start digits (replicate 6 0) (omega (arith, fits))
    ∙ ap (λ t. some (digits ++ t))
        (drop-replicate (length digits) 6 0 ∙ ap (λ k. replicate k 0) left)

-- The copy that `addClient` makes of a port.
port_copy :
    (a : Address) (ok : IsAddress a)
    → write_at 0 ok.digits (replicate (port_size + 1) 0) ≡ some a.port
port_copy a ok = write_at-digits ok.digits ok.digits_size ∙ ap some (sym ok.port)

pub address_eq :
    (a : Address) (ok : IsAddress a)
    → Path Address (record { hostname = some (block ok.name); port = a.port }) a
address_eq a ok = rw⁻¹ ok.host refl

module _ (attempt : Attempt) (h : Heap ClientInfo) (s : ℕ) (a : Address) (ok : IsAddress a)
    (api mining : ℕ) where
  pub add_client-refused :
      reached attempt ≡ false → add_client attempt h s a api mining ≡ some (none, h)
  unfolding add_client add_reached
  add_client-refused down =
      let digits : c_string a.port ≡ some ok.digits =
        rw ok.port (c_string-append ok.digits _ ok.digits_text) in
      let name = c_string-append ok.name [] ok.text in
      elim (Bool-cases (attempt.socket && attempt.option)) [
        | inl e ↦ elim (Bool-cases (attempt.resolved && attempt.connected)) [
          | inl f ↦ (let d : true ≡ false = rw (e, f) at down in cc)
          | inr f ↦ rw (ok.host, e, name, digits, f) refl
        ]
        | inr e ↦ rw (ok.host, e) refl
      ]

  pub add_client-reached :
      {h' : Heap ClientInfo} {c : ℕ}
      → reached attempt ≡ true
      → link_client h s a api mining ≡ some (c, h')
      → add_client attempt h s a api mining ≡ some (some c, h')
  unfolding add_client add_reached
  add_client-reached up linked =
      let digits : c_string a.port ≡ some ok.digits =
        rw ok.port (c_string-append ok.digits _ ok.digits_text) in
      let name = c_string-append ok.name [] ok.text in
      elim (Bool-cases (attempt.socket && attempt.option)) [
        | inl e ↦ elim (Bool-cases (attempt.resolved && attempt.connected)) [
          | inl f ↦ rw (ok.host, e, name, digits, f, port_copy a ok, address_eq a ok, linked) refl
          | inr f ↦ (let d : false ≡ true = rw (e, f) at up in cc)
        ]
        | inr e ↦ (let d : false ≡ true = rw e at up in cc)
      ]

known-find_in :
    (addr : Address) (ns : List Member) (a : ℕ)
    → find_in addr ns ≡ some a
    → knows addr (map fact ns) ≡ true
known-find_in addr [] a found = cc
known-find_in addr (n ∷ ns) a found = elim (Bool-cases (same addr n.address)) [
  | inl e ↦ rw e refl
  | inr e ↦ rw e (known-find_in addr ns a (rw e at found))
]

unknown-find_in :
    (addr : Address) (ns : List Member) → find_in addr ns ≡ none → knows addr (map fact ns) ≡ false
unknown-find_in addr [] lost = refl
unknown-find_in addr (n ∷ ns) lost = elim (Bool-cases (same addr n.address)) [
  | inl e ↦ (let d : some n.addr ≡ none = rw e at lost in cc)
  | inr e ↦ rw e (unknown-find_in addr ns (rw e at lost))
]

addresses : (ns : List Member) → All IsKnown ns → All (λ n. IsAddress n.address) ns
addresses [] h = tt
addresses (n ∷ ns) h = (h.0.address, addresses ns h.1)

-- A list of clients that says these facts.
pub record Knows (s : ℕ) (h : Heap ClientInfo) (ks : List Fact) (limit : ℕ) : Type 0 where
  pub members : List Member
  pub clients : IsClients h s members
  pub known : All IsKnown members
  pub facts : map fact members ≡ ks
  pub few : length members ≤ limit

pub learn-merge_one :
    (fuel : ℕ) (attempt : Attempt) (h : Heap ClientInfo) (s : ℕ) (ns : List Member) (m : Member)
    (taken : ℕ)
    → length ns < fuel
    → IsClients h s ns
    → All IsKnown ns
    → IsKnown m
    → (h' : Heap ClientInfo) × (learn fuel attempt h s
          (record { address = m.address; api = m.api; mining = m.mining; taken = taken })
        ≡ some h')
      × Knows s h' (merge_one attempt (fact m) (map fact ns)) (length ns + 1)
unfolding learn
learn-merge_one fuel attempt h s ns m taken fits ok known told =
    let found =
      find_client-find_in fuel h s ns m.address fits ok told.address (addresses ns known) in
    elim (Option-cases (find_in m.address ns)) [
      | inl e ↦ elim (Bool-cases (reached attempt)) [
        | inl up ↦
            let (h', linked, ok') = link_client-IsClients h s ns m.address m.api m.mining ok in
            (
              h',
              rw
                  (
                    found,
                    e,
                    add_client-reached attempt h s m.address told.address m.api m.mining up linked,
                  )
                  refl,
              record {
                members = made h s m.address m.api m.mining ∷ ns;
                clients = ok';
                known = (
                  record {
                    address = told.address;
                    short = told.short;
                    api = told.api;
                    mining = told.mining;
                  },
                  known,
                );
                facts = rw (unknown-find_in m.address ns e, up) refl;
                few = omega arith;
              },
            )
        | inr down ↦ (
          h,
          rw (found, e, add_client-refused attempt h s m.address told.address m.api m.mining down)
              refl,
          record {
            members = ns;
            clients = ok;
            known = known;
            facts = rw (unknown-find_in m.address ns e, down) refl;
            few = omega arith;
          },
        )
      ]
      | inr (a, e) ↦
          let (h', updated, ok') = update_client-IsClients h s ns ok (fact m) a e in
          (
            h',
            rw (found, e, updated) refl,
            record {
              members = refresh_members (fact m) ns;
              clients = ok';
              known = refresh-IsKnown (fact m) ns told.api told.mining known;
              facts = rw (known-find_in m.address ns a e) (map-refresh_members (fact m) ns);
              few = omega (arith, length-refresh_members (fact m) ns);
            },
          )
    ]
