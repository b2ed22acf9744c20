-- ===== src/Network/Clients/Ring.antt =====
-- The list of clients is a ring through its sentinel: adding and removing keep it one.
use tek.Memory.{Heap, set}
use tek.Prelude.{
  ℕ, ◌<◌, ◌≡◌, refl, true, false, Option, some, List, [], ◌∷◌, ◌++◌, arith, ◌==◌, All, All-append,
}
use tek.Network.Clients.{Address, ClientInfo}

-- An element: where it is, and what it says.
pub record Member : Type 0 where
  pub addr : ℕ
  pub address : Address
  pub api : ℕ
  pub mining : ℕ

abbrev pub cell : (s : ℕ) → Member → (next prev : ℕ) → ClientInfo
cell s n next prev = record {
  address = n.address;
  api = n.api;
  mining = n.mining;
  is_sentinel = false;
  next = next;
  prev = some prev;
  sentinel = s;
}

-- Where the list begins, and what is in front of its end.
abbrev pub first_of : ℕ → List Member → ℕ
first_of e [] = e
first_of e (n ∷ ns) = n.addr

abbrev pub back_of : ℕ → List Member → ℕ
back_of p [] = p
back_of p (n ∷ ns) = back_of n.addr ns

-- The elements hang together, behind `p` and in front of `e`.
abbrev pub Seg : ℕ → (ℕ → Option ClientInfo) → ℕ → List Member → ℕ → Type 0
Seg s cells p [] e = Unit {0}
Seg s cells p (n ∷ ns) e =
    (cells n.addr ≡ some (cell s n (first_of e ns) p)) × Seg s cells n.addr ns e

abbrev pub Apart : ℕ → List Member → Type 0
Apart a ns = All (λ n. (a == n.addr) ≡ false) ns

abbrev pub Distinct : List Member → Type 0
Distinct [] = Unit {0}
Distinct (n ∷ ns) = Apart n.addr ns × Distinct ns

-- What else is in a sentinel; its `prev` is never read.
pub record Sentinel : Type 0 where
  pub address : Address
  pub api : ℕ
  pub mining : ℕ
  pub prev : Option ℕ

abbrev pub head_cell : (s first : ℕ) → Sentinel → ClientInfo
head_cell s first head = record {
  address = head.address;
  api = head.api;
  mining = head.mining;
  is_sentinel = true;
  next = first;
  prev = head.prev;
  sentinel = s;
}

pub record IsHead (cells : ℕ → Option ClientInfo) (s first : ℕ) : Type 0 where
  pub head : Sentinel
  pub at : cells s ≡ some (head_cell s first head)

-- The list with the sentinel `s` holds these elements, from the first on.
pub record IsClients (h : Heap ClientInfo) (s : ℕ) (ns : List Member) : Type 0 where
  pub head : IsHead h.cells s (first_of s ns)
  pub linked : Seg s h.cells s ns s
  pub apart : Apart s ns
  pub distinct : Distinct ns
  pub old : All (λ n. n.addr < h.top) ns
  pub old_sentinel : s < h.top

pub IsHead-set :
    (cells : ℕ → Option ClientInfo) (s next a : ℕ) (c : Option ClientInfo)
    → (a == s) ≡ false
    → IsHead cells s next
    → IsHead (set cells a c) s next
IsHead-set cells s next a c off h = record { head = h.head; at = rw off h.at }

pub Seg-set :
    (s : ℕ) (cells : ℕ → Option ClientInfo) (a : ℕ) (c : Option ClientInfo) (p : ℕ)
    (ns : List Member) (e : ℕ)
    → Apart a ns
    → Seg s cells p ns e
    → Seg s (set cells a c) p ns e
Seg-set s cells a c p [] e apart l = tt
Seg-set s cells a c p (n ∷ ns) e apart l =
    (rw apart.0 l.0, Seg-set s cells a c n.addr ns e apart.1 l.1)

pub first_of-append :
    (e : ℕ) (xs ys : List Member) → first_of e (xs ++ ys) ≡ first_of (first_of e ys) xs
first_of-append e [] ys = refl
first_of-append e (x ∷ xs) ys = refl

pub Seg-split :
    (s : ℕ) (cells : ℕ → Option ClientInfo) (p : ℕ) (xs ys : List Member) (e : ℕ)
    → Seg s cells p (xs ++ ys) e
    → Seg s cells p xs (first_of e ys) × Seg s cells (back_of p xs) ys e
Seg-split s cells p [] ys e l = (tt, l)
Seg-split s cells p (x ∷ xs) ys e l =
    let (front, back) = Seg-split s cells x.addr xs ys e l.1 in
    ((rw (first_of-append e xs ys) at l.0, front), back)

pub Seg-join :
    (s : ℕ) (cells : ℕ → Option ClientInfo) (p : ℕ) (xs ys : List Member) (e : ℕ)
    → Seg s cells p xs (first_of e ys)
    → Seg s cells (back_of p xs) ys e
    → Seg s cells p (xs ++ ys) e
Seg-join s cells p [] ys e front back = back
Seg-join s cells p (x ∷ xs) ys e front back =
    (rw (first_of-append e xs ys) front.0, Seg-join s cells x.addr xs ys e front.1 back)

pub All-split : (P : Member → Type 0) (xs ys : List Member) → All P (xs ++ ys) → All P xs × All P ys
All-split P [] ys h = (tt, h)
All-split P (x ∷ xs) ys h = let (a, b) = All-split P xs ys h.1 in ((h.0, a), b)

-- An element in the middle is apart from the others.
pub Distinct-drop :
    (xs : List Member) (n : Member) (ys : List Member)
    → Distinct (xs ++ n ∷ ys)
    → Distinct (xs ++ ys) × Apart n.addr xs × Apart n.addr ys
Distinct-drop [] n ys d = (d.1, tt, d.0)
Distinct-drop (x ∷ xs) n ys d =
    let (rest, before, after) = Distinct-drop xs n ys d.1 in
    let (a, b) = All-split _ xs (n ∷ ys) d.0 in
    ((All-append _ xs ys a b.1, rest), (ground (arith, b.0), before), after)

pub back-Apart :
    (a p : ℕ) (xs : List Member) → (a == p) ≡ false → Apart a xs → (back_of p xs == a) ≡ false
back-Apart a p [] off h = ground (arith, off)
back-Apart a p (x ∷ xs) off h = back-Apart a x.addr xs h.0 h.1

pub Distinct-left : (xs ys : List Member) → Distinct (xs ++ ys) → Distinct xs
Distinct-left [] ys d = tt
Distinct-left (x ∷ xs) ys d = ((All-split _ xs ys d.0).0, Distinct-left xs ys d.1)

pub back-Apart_all :
    (p : ℕ) (xs ys : List Member) → Apart p ys → Distinct (xs ++ ys) → Apart (back_of p xs) ys
back-Apart_all p [] ys h d = h
back-Apart_all p (x ∷ xs) ys h d = back-Apart_all x.addr xs ys (All-split _ xs ys d.0).1 d.1

pub first-Apart :
    (a e : ℕ) (ns : List Member) → (a == e) ≡ false → Apart a ns → (first_of e ns == a) ≡ false
first-Apart a e [] off h = ground (arith, off)
first-Apart a e (n ∷ ns) off h = ground (arith, h.0)

-- The sentinel, and the elements up to `e`.
abbrev pub Front : (ℕ → Option ClientInfo) → ℕ → List Member → ℕ → Type 0
Front cells s xs e = IsHead cells s (first_of e xs) × Seg s cells s xs e

-- The `next` of the last element is set.
Seg-next :
    (s : ℕ) (cells : ℕ → Option ClientInfo) (p : ℕ) (x : Member) (xs : List Member) (e e' : ℕ)
    → Distinct (x ∷ xs)
    → Seg s cells p (x ∷ xs) e
    → (c : ClientInfo) × (cells (back_of x.addr xs) ≡ some c)
      × Seg s (set cells (back_of x.addr xs) (some (record c { next = e' }))) p (x ∷ xs) e'
Seg-next s cells p x [] e e' d l =
    let here : (x.addr == x.addr) ≡ true = ground arith in (_, l.0, (rw here refl, tt))
Seg-next s cells p x (y ∷ ys) e e' d l =
    let (c, at, rest) = Seg-next s cells x.addr y ys e e' d.1 l.1 in
    (c, at, (rw (back-Apart x.addr y.addr ys d.0.0 d.0.1) l.0, rest))

pub Front-next :
    (s : ℕ) (cells : ℕ → Option ClientInfo) (xs : List Member) (e e' : ℕ)
    → Apart s xs
    → Distinct xs
    → Front cells s xs e
    → (c : ClientInfo) × (cells (back_of s xs) ≡ some c)
      × Front (set cells (back_of s xs) (some (record c { next = e' }))) s xs e'
Front-next s cells [] e e' apart d (h, l) =
    let here : (s == s) ≡ true = ground arith in
    (_, h.at, (record { head = h.head; at = rw here refl }, tt))
Front-next s cells (x ∷ xs) e e' apart d (h, l) =
    let (c, at, rest) = Seg-next s cells s x xs e e' d l in
    (c, at, (IsHead-set cells s _ _ _ (back-Apart s x.addr xs apart.0 apart.1) h, rest))

-- The `prev` of the element behind is set, be it the sentinel.
pub Front-prev :
    (s : ℕ) (cells : ℕ → Option ClientInfo) (xs ys : List Member) (q p' : ℕ)
    → Apart s xs
    → Apart s ys
    → Distinct (xs ++ ys)
    → Front cells s xs (first_of s ys)
    → Seg s cells q ys s
    → (c : ClientInfo) × (cells (first_of s ys) ≡ some c)
      × (let cells' = set cells (first_of s ys) (some (record c { prev = some p' })) in
          Front cells' s xs (first_of s ys) × Seg s cells' p' ys s)
Front-prev s cells xs [] q p' ax ay d (h, l) back =
    let here : (s == s) ≡ true = ground arith in
    (
      _,
      h.at,
      (
        (
          record { head = record h.head { prev = some p' }; at = rw here refl },
          Seg-set s cells s _ s xs s ax l,
        ),
        tt,
      ),
    )
Front-prev s cells xs (y ∷ ys) q p' ax ay d (h, l) back =
    let here : (y.addr == y.addr) ≡ true = ground arith in
    let off : (y.addr == s) ≡ false = ground (arith, ay.0) in
    let (rest, before, after) = Distinct-drop xs y ys d in
    (
      _,
      back.0,
      (
        (IsHead-set cells s _ y.addr _ off h, Seg-set s cells y.addr _ s xs y.addr before l),
        (rw here refl, Seg-set s cells y.addr _ y.addr ys s after back.1),
      ),
    )
