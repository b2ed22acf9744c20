-- ===== src/Network/Discovery/Refresh.antt =====
-- What `addServerFromMessage` does for one entry of the message.
use mathlib.Core.Path.{subst}
use tek.Memory.{Heap, set, store}
use tek.Prelude.{
  ℕ, suc, ◌<◌, ◌^◌, ◌≡◌, refl, ap, true, false, Option, some, List, [], ◌∷◌, arith, All, length,
  ◌==◌, Bool-cases, inl, inr, if◌then◌else◌, map, some-eq,
}
use tek.Network.Clients.{Address, ClientInfo}
use tek.Network.Clients.Ring.{
  Member, cell, Apart, Distinct, IsClients, Seg, first_of, IsHead-set, Seg-set,
}
use tek.Network.Clients.Search.{same, find_in}
use tek.Network.Discovery.{minus_one, update_client}
use tek.Network.Discovery.Entries.{IsKnown}

-- What a node knows of another.
pub record Fact : Type 0 where
  pub address : Address
  pub api : ℕ
  pub mining : ℕ

abbrev pub fact : Member → Fact
fact n = record { address = n.address; api = n.api; mining = n.mining }

abbrev pub renewed : (told own : ℕ) → ℕ
renewed told own = if told == minus_one then own else told

-- The first client with the address takes over what is told of it, -1 excepted.
abbrev pub refresh : Fact → List Fact → List Fact
refresh f [] = []
refresh f (k ∷ ks) =
    let rest = refresh f ks in
    if same f.address k.address
    then record k { api = renewed f.api k.api; mining = renewed f.mining k.mining } ∷ ks
    else k ∷ rest

abbrev renew : Fact → Member → Member
renew f n = record n { api = renewed f.api n.api; mining = renewed f.mining n.mining }

abbrev pub refresh_members : Fact → List Member → List Member
refresh_members f [] = []
refresh_members f (n ∷ ns) =
    let rest = refresh_members f ns in if same f.address n.address then renew f n ∷ ns else n ∷ rest

pub map-refresh_members :
    (f : Fact) (ns : List Member) → map fact (refresh_members f ns) ≡ refresh f (map fact ns)
map-refresh_members f [] = refl
map-refresh_members f (n ∷ ns) = elim (Bool-cases (same f.address n.address)) [
  | inl e ↦ rw e refl
  | inr e ↦ rw e (ap (λ ks. fact n ∷ ks) (map-refresh_members f ns))
]

All-refresh_members :
    (P : Member → Type 0) (f : Fact) (ns : List Member)
    → ((n : Member) → P n → P (renew f n))
    → All P ns
    → All P (refresh_members f ns)
All-refresh_members P f [] keep h = tt
All-refresh_members P f (n ∷ ns) keep h = elim (Bool-cases (same f.address n.address)) [
  | inl e ↦ rw e (keep n h.0, h.1)
  | inr e ↦ rw e (h.0, All-refresh_members P f ns keep h.1)
]

Distinct-refresh_members :
    (f : Fact) (ns : List Member) → Distinct ns → Distinct (refresh_members f ns)
Distinct-refresh_members f [] d = tt
Distinct-refresh_members f (n ∷ ns) d = elim (Bool-cases (same f.address n.address)) [
  | inl e ↦ rw e d
  | inr e ↦ rw e (All-refresh_members _ f ns (λ m h. h) d.0, Distinct-refresh_members f ns d.1)
]

first_of-refresh_members :
    (f : Fact) (ns : List Member) (e : ℕ) → first_of e (refresh_members f ns) ≡ first_of e ns
first_of-refresh_members f [] e = refl
first_of-refresh_members f (n ∷ ns) e = elim (Bool-cases (same f.address n.address)) [
  | inl h ↦ rw h refl
  | inr h ↦ rw h refl
]

find_in-Apart :
    (addr : Address) (ns : List Member) (a x : ℕ)
    → find_in addr ns ≡ some a
    → Apart x ns
    → (a == x) ≡ false
find_in-Apart addr [] a x found h = cc
find_in-Apart addr (n ∷ ns) a x found h = elim (Bool-cases (same addr n.address)) [
  | inl e ↦ ground (arith, h.0, rw e at found)
  | inr e ↦ find_in-Apart addr ns a x (rw e at found) h.1
]

-- The stores to the client that was found.
Seg-renew :
    (s : ℕ) (cells : ℕ → Option ClientInfo) (p : ℕ) (ns : List Member) (e : ℕ) (f : Fact) (a : ℕ)
    → find_in f.address ns ≡ some a
    → Distinct ns
    → Seg s cells p ns e
    → (c : ClientInfo) × (cells a ≡ some c)
      × Seg s
          (set cells a
            (some (record c { api = renewed f.api c.api; mining = renewed f.mining c.mining })))
          p
          (refresh_members f ns)
          e
Seg-renew s cells p [] e f a found d l = cc
Seg-renew s cells p (n ∷ ns) e f a found d l = elim (Bool-cases (same f.address n.address)) [
  | inl h ↦
      let at : n.addr ≡ a = some-eq (rw h at found) in
      let c = cell s n (first_of e ns) p in
      let new = some (cell s (renew f n) (first_of e ns) p) in
      let here : (a == n.addr) ≡ true = ground (arith, at) in
      let apart = subst (λ b. Apart b ns) at d.0 in
      rw h (
        c,
        subst (λ b. cells b ≡ some c) at l.0,
        (rw here refl, Seg-set s cells a new n.addr ns e apart l.1),
      )
  | inr h ↦
      let found' : find_in f.address ns ≡ some a = rw h at found in
      let (c, at, rest) = Seg-renew s cells n.addr ns e f a found' d.1 l.1 in
      let off = find_in-Apart f.address ns a n.addr found' d.0 in
      rw h (c, at, (rw (off, first_of-refresh_members f ns e) l.0, rest))
]

renew-IsKnown :
    (f : Fact) (n : Member) → f.api < 2 ^ 32 → f.mining < 2 ^ 32 → IsKnown n → IsKnown (renew f n)
renew-IsKnown f n a m ok = record {
  address = ok.address;
  short = ok.short;
  api = ground (arith, a, ok.api);
  mining = ground (arith, m, ok.mining);
}

pub refresh-IsKnown :
    (f : Fact) (ns : List Member)
    → f.api < 2 ^ 32
    → f.mining < 2 ^ 32
    → All IsKnown ns
    → All IsKnown (refresh_members f ns)
refresh-IsKnown f ns a m = All-refresh_members IsKnown f ns (λ n. renew-IsKnown f n a m)

pub length-refresh_members :
    (f : Fact) (ns : List Member) → length (refresh_members f ns) ≡ length ns
length-refresh_members f [] = refl
length-refresh_members f (n ∷ ns) = elim (Bool-cases (same f.address n.address)) [
  | inl e ↦ rw e refl
  | inr e ↦ rw e (ap suc (length-refresh_members f ns))
]

module _ (h : Heap ClientInfo) (s : ℕ) (ns : List Member) (ok : IsClients h s ns) (f : Fact) where
  -- The client that was found takes over what is told of it.
  pub update_client-IsClients :
      (a : ℕ)
      → find_in f.address ns ≡ some a
      → (h' : Heap ClientInfo) × (update_client h a f.api f.mining ≡ some h')
        × IsClients h' s (refresh_members f ns)
  unfolding update_client store
  update_client-IsClients a found =
      let (c, at, linked) = Seg-renew s h.cells s ns s f a found ok.distinct ok.linked in
      (
        record h {
          cells =
              set h.cells a
                (some (record c { api = renewed f.api c.api; mining = renewed f.mining c.mining }));
        },
        rw at refl,
        record {
          head = rw (first_of-refresh_members f ns s) (
              IsHead-set h.cells s (first_of s ns) a _
                (find_in-Apart f.address ns a s found ok.apart) ok.head);
          linked = linked;
          apart = All-refresh_members _ f ns (λ n x. x) ok.apart;
          distinct = Distinct-refresh_members f ns ok.distinct;
          old = All-refresh_members _ f ns (λ n x. x) ok.old;
          old_sentinel = ok.old_sentinel;
        },
      )
