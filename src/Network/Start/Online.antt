-- ===== src/Network/Start/Online.antt =====
-- The nodes that a node knows at its start.
use tek.Memory.{Heap}
use tek.Prelude.{
  ℕ, ◌+◌, ◌-◌, ◌≤◌, ◌<◌, ◌^◌, ◌≡◌, refl, true, false, ◌&&◌, Option, none, some, List, [], ◌∷◌, ◌++◌,
  arith, Bool-cases, inl, inr, All, if◌then◌else◌, length, replicate,
}
use tek.Bytes.{IsText, block}
use tek.Network.Clients.{Address, Attempt, ClientInfo, port_size, add_client}
use tek.Network.Clients.Ring.{Member, IsClients}
use tek.Network.Clients.Changes.{made, link_client-IsClients}
use tek.Network.Clients.Search.{IsAddress}
use tek.Network.Discovery.{minus_one}
use tek.Network.Discovery.Entries.{IsKnown}
use tek.Network.Discovery.Refresh.{Fact}
use tek.Network.Discovery.Merge.{
  Knows, reached, add_client-reached, add_client-refused, write_at-digits,
}
use tek.Network.Start.{
  Server, Problem, fine, no_self, no_first_server, online, exiting, port_text, too_long,
  copy_address, add_first, add_servers, network, run_network, exit_code, end_status,
}

-- A host name, and a port if there is one, that fit an address and a message.
pub record IsPlace (hostname : List ℕ) (port : Option (List ℕ)) : Type 0 where
  pub text : IsText hostname
  pub short : length hostname + 7 < 2 ^ 16
  pub digits : IsText (port_text port)
  pub size : length (port_text port) ≤ port_size

abbrev pub place : (hostname : List ℕ) → Option (List ℕ) → Address
place hostname port = record {
  hostname = some (block hostname);
  port = port_text port ++ 0 ∷ replicate (port_size - length (port_text port)) 0;
}

abbrev pub place-IsAddress :
    (hostname : List ℕ) (port : Option (List ℕ))
    → IsPlace hostname port
    → IsAddress (place hostname port)
place-IsAddress hostname port ok = record {
  name = hostname;
  text = ok.text;
  host = refl;
  digits = port_text port;
  digits_text = ok.digits;
  digits_size = ok.size;
  port = refl;
}

copy_address-place :
    (hostname : List ℕ) (port : Option (List ℕ))
    → IsPlace hostname port
    → copy_address hostname port ≡ some (place hostname port)
unfolding copy_address
copy_address-place hostname port ok = rw (write_at-digits (port_text port) ok.size) refl

module _ (h : Heap ClientInfo) (s : ℕ) (ns : List Member) (ok : IsClients h s ns)
    (known : All IsKnown ns) where
  -- A node that is reached is known.
  add_client-Knows :
      (attempt : Attempt) (hostname : List ℕ) (port : Option (List ℕ)) (api mining : ℕ)
      → IsPlace hostname port
      → api < 2 ^ 32
      → mining < 2 ^ 32
      → reached attempt ≡ true
      → (h' : Heap ClientInfo) × (add_client attempt h s (place hostname port) api mining
          ≡ some (some h.top, h'))
        × IsClients h' s (made h s (place hostname port) api mining ∷ ns)
        × All IsKnown (made h s (place hostname port) api mining ∷ ns)
  add_client-Knows attempt hostname port api mining fits a m up =
      let address = place hostname port in
      let address_ok = place-IsAddress hostname port fits in
      let (h', linked, ok') = link_client-IsClients h s ns address api mining ok in
      (
        h',
        add_client-reached attempt h s address address_ok api mining up linked,
        ok',
        (record { address = address_ok; short = fits.short; api = a; mining = m }, known),
      )

not_long :
    (hostname : List ℕ) (port : Option (List ℕ)) → IsPlace hostname port → too_long port ≡ false
not_long hostname none ok = refl
not_long hostname (some digits) ok = ground (arith, ok.size)

-- What a node knows first.
abbrev pub first_facts : Attempt → Attempt → (own first : Fact) → List Fact
first_facts attempt attempt_first own first =
    if reached attempt then if reached attempt_first then first ∷ own ∷ [] else own ∷ [] else []

module _ (attempt attempt_first : Attempt) (server : Server) (host first : List ℕ)
    (port port_first : Option (List ℕ)) (fits : IsPlace host port)
    (fits_first : IsPlace first port_first)
    (clients : IsClients server.clients server.known_servers []) (api : server.api < 2 ^ 32)
    (mining : server.mining < 2 ^ 32) where
  abbrev pub own_fact : Fact
  own_fact = record { address = place host port; api = server.api; mining = server.mining }

  abbrev pub first_fact : Fact
  first_fact = record { address = place first port_first; api = minus_one; mining = minus_one }

  -- `add_servers`, on the address that was copied.
  added :
      (problem : Problem) × (h : Heap ClientInfo) × (add_servers attempt attempt_first
          (record server { status = online; address = place host port })
          (some (place first port_first))
        ≡ some (problem, h))
      × Knows server.known_servers h (first_facts attempt attempt_first own_fact first_fact) 2
      × (exit_code problem ≡ true)
      × ((h' : Heap ClientInfo)
          → end_status problem
              (record server { status = online; address = place host port; clients = h' })
            ≡ record server {
              status = if reached attempt && reached attempt_first then online else exiting;
              address = place host port;
              clients = h';
            })
  unfolding add_servers add_first
  added =
      let s = server.known_servers in
      let own = place-IsAddress host port fits in
      let other = place-IsAddress first port_first fits_first in
      elim (Bool-cases (reached attempt)) [
        | inl up ↦
            let (h1, add1, ok1, known1) =
              add_client-Knows server.clients s [] clients tt attempt host port server.api
                server.mining fits api mining up in
            elim (Bool-cases (reached attempt_first)) [
              | inl up1 ↦
                  let (h2, add2, ok2, known2) =
                    add_client-Knows h1 s _ ok1 known1 attempt_first first port_first minus_one
                      minus_one fits_first (omega arith) (omega arith) up1 in
                  (
                    fine,
                    h2,
                    rw (add1, add2) refl,
                    record {
                      members = _;
                      clients = ok2;
                      known = known2;
                      facts = rw (up, up1) refl;
                      few = omega arith;
                    },
                    refl,
                    λ h'. rw (up, up1) refl,
                  )
              | inr down1 ↦ (
                no_first_server,
                h1,
                rw (add1, add_client-refused attempt_first h1 s _ other minus_one minus_one down1)
                    refl,
                record {
                  members = _;
                  clients = ok1;
                  known = known1;
                  facts = rw (up, down1) refl;
                  few = omega arith;
                },
                refl,
                λ h'. rw (up, down1) refl,
              )
            ]
        | inr down ↦ (
          no_self,
          server.clients,
          rw (add_client-refused attempt server.clients s _ own server.api server.mining down) refl,
          record {
            members = [];
            clients = clients;
            known = tt;
            facts = rw down refl;
            few = omega arith;
          },
          refl,
          λ h'. rw down refl,
        )
      ]

  -- `Network`, when its threads start, on a server that knows nobody: with places whose host names
  -- and ports fit, it ends with success. It knows itself and then the first server, as far as they
  -- were reached, and is online if both were.
  pub network-Knows :
      (h : Heap ClientInfo) × (network true true true attempt attempt_first server
          (some host)
          port
          (some first)
          port_first
        ≡ some (
          true,
          record server {
            status = if reached attempt && reached attempt_first then online else exiting;
            address = place host port;
            clients = h;
          },
        ))
      × Knows server.known_servers h (first_facts attempt attempt_first own_fact first_fact) 2
  unfolding network run_network
  network-Knows =
      let (problem, h, ran, knows, code, ends) = added in
      (
        h,
        rw
            (
              not_long host port fits,
              not_long first port_first fits_first,
              copy_address-place host port fits,
              copy_address-place first port_first fits_first,
              ran,
              code,
              ends h,
            )
            refl,
        knows,
      )
