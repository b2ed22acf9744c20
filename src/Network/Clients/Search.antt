-- ===== src/Network/Clients/Search.antt =====
-- Looking for a node in the list of clients.
use tek.Memory.{Heap}
use tek.Prelude.{
  ℕ, zero, suc, ◌+◌, ◌-◌, ◌≤◌, ◌<◌, ◌≡◌, refl, ap, ◌∙◌, Bool, true, false, ◌&&◌, Option, none, some,
  List, [], ◌∷◌, ◌++◌, arith, ◌==◌, Bool-cases, inl, inr, All, length, take, replicate,
  length-append, length-replicate, if◌then◌else◌,
}
use tek.Bytes.{IsText, block, memcmp, until_nul}
use tek.Bytes.Text.{
  c_string-append, memcmp-length, memcmp-take, text_eq, text_eq-length, until_nul-append,
}
use tek.Network.Clients.{
  Address, ClientInfo, port_size, same_ip, find_loop, find_client, len_loop, list_len,
}
use tek.Network.Clients.Ring.{Member, first_of, Seg, IsHead, IsClients}

-- An address with a host name that is a string, and a port of five digits at most.
pub record IsAddress (a : Address) : Type 0 where
  pub name : List ℕ
  pub text : IsText name
  pub host : a.hostname ≡ some (block name)
  pub digits : List ℕ
  pub digits_text : IsText digits
  pub digits_size : length digits ≤ port_size
  pub port : a.port ≡ digits ++ 0 ∷ replicate (port_size - length digits) 0

pub length-port : (a : Address) → IsAddress a → length a.port ≡ port_size + 1
length-port a ok = rw ok.port (
    omega (
      arith,
      ok.digits_size,
      length-append ok.digits (0 ∷ replicate (port_size - length ok.digits) 0),
      length-replicate {A = ℕ} (port_size - length ok.digits) 0,
    ))

abbrev pub name_of : Address → List ℕ
name_of a = elim a.hostname [ none ↦ [] | some host ↦ until_nul host ]

-- The same host name, and the same five bytes of port.
abbrev pub same : Address → Address → Bool
same a b =
    text_eq (name_of a) (name_of b) && text_eq (take port_size a.port) (take port_size b.port)

pub name_of-text : (a : Address) (ok : IsAddress a) → name_of a ≡ ok.name
name_of-text a ok = rw ok.host (until_nul-append ok.name [] ok.text)

names :
    (s t : List ℕ)
    → (if length s == length t then memcmp (length s) (block s) (block t) else some false)
      ≡ some (text_eq s t)
names s t = elim (Bool-cases (length s == length t)) [
  | inl e ↦ rw e (memcmp-length s t (ground (arith, e)))
  | inr e ↦ elim (Bool-cases (text_eq s t)) [
    | inl f ↦ absurd (ground (arith, e, text_eq-length s t f))
    | inr f ↦ rw (e, f) refl
  ]
]

if_and : (p m : Bool) → (if p then m else false) ≡ (m && p)
if_and true true = refl
if_and true false = refl
if_and false true = refl
if_and false false = refl

pub same_ip-same : (a b : Address) → IsAddress a → IsAddress b → same_ip a b ≡ some (same a b)
unfolding same_ip
same_ip-same a b oka okb =
    let sa = c_string-append oka.name [] oka.text in
    let sb = c_string-append okb.name [] okb.text in
    let ports =
      memcmp-take port_size a.port b.port (omega (arith, length-port a oka))
        (omega (arith, length-port b okb)) in
    let ua = until_nul-append oka.name [] oka.text in
    let ub = until_nul-append okb.name [] okb.text in
    rw (oka.host, okb.host, sa, sb, names oka.name okb.name, ports, ua, ub)
      (ap some (
        if_and (text_eq (take port_size a.port) (take port_size b.port))
          (text_eq oka.name okb.name)))

if_some : (b : Bool) (x y : Option ℕ) → (if b then some x else some y) ≡ some (if b then x else y)
if_some true x y = refl
if_some false x y = refl

-- The first client with this address.
abbrev pub find_in : Address → List Member → Option ℕ
find_in addr [] = none
find_in addr (n ∷ ns) =
    let rest = find_in addr ns in if same addr n.address then some n.addr else rest

find_loop-find_in :
    (fuel : ℕ) (h : Heap ClientInfo) (s p : ℕ) (ns : List Member) (addr : Address) {first : ℕ}
    → length ns < fuel
    → IsHead h.cells s first
    → Seg s h.cells p ns s
    → IsAddress addr
    → All (λ n. IsAddress n.address) ns
    → find_loop fuel h addr (first_of s ns) ≡ some (find_in addr ns)
unfolding find_loop
find_loop-find_in zero h s p ns addr fits head l ok oks = absurd (omega arith)
find_loop-find_in (suc fuel) h s p [] addr fits head l ok oks = rw head.at refl
find_loop-find_in (suc fuel) h s p (n ∷ ns) addr fits head l ok oks =
    let same_n = same_ip-same addr n.address ok oks.0 in
    let more = find_loop-find_in fuel h s n.addr ns addr (omega arith) head l.1 ok oks.1 in
    rw (l.0, same_n, more) (if_some (same addr n.address) (some n.addr) (find_in addr ns))

-- On a list of clients with well-formed addresses, `FindClient` ends and finds the first client
-- with the host name and the port, if there is one. Fuel for one element more is enough.
pub find_client-find_in :
    (fuel : ℕ) (h : Heap ClientInfo) (s : ℕ) (ns : List Member) (addr : Address)
    → length ns < fuel
    → IsClients h s ns
    → IsAddress addr
    → All (λ n. IsAddress n.address) ns
    → find_client fuel h addr s ≡ some (find_in addr ns)
unfolding find_client
find_client-find_in fuel h s ns addr fits ok named all =
    rw (ok.head.at, ok.head.at)
      (find_loop-find_in fuel h s s ns addr fits ok.head ok.linked named all)

len_loop-length :
    (fuel : ℕ) (h : Heap ClientInfo) (s p : ℕ) (ns : List Member) {first : ℕ} (res : ℕ)
    → length ns < fuel
    → IsHead h.cells s first
    → Seg s h.cells p ns s
    → len_loop fuel h (first_of s ns) res ≡ some (res + length ns)
unfolding len_loop
len_loop-length zero h s p ns res fits head l = absurd (omega arith)
len_loop-length (suc fuel) h s p [] res fits head l = rw head.at (ap some (omega arith))
len_loop-length (suc fuel) h s p (n ∷ ns) res fits head l =
    rw (l.0, len_loop-length fuel h s n.addr ns (res + 1) (omega arith) head l.1)
      (ap some (omega arith))

pub list_len-length :
    (fuel : ℕ) (h : Heap ClientInfo) (s : ℕ) (ns : List Member)
    → length ns < fuel
    → IsClients h s ns
    → list_len fuel h s ≡ some (length ns)
unfolding list_len
list_len-length fuel h s ns fits ok =
    rw (ok.head.at, ok.head.at)
      (len_loop-length fuel h s s ns 0 fits ok.head ok.linked ∙ ap some (omega arith))
