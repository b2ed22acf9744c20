-- ===== src/Queue/Linked.antt =====
-- The elements of the circular list, and what they are called.
use tek.Prelude.{
  ℕ, ◌+◌, ◌<◌, ◌≡◌, refl, false, Option, none, some, List, [], ◌∷◌, ◌++◌, arith, All-append, ◌==◌,
  All,
}
use tek.Memory.{Heap, set}
use tek.Queue.{Cell}

-- An element: where it is, and the pointer in it.
pub record Elem : Type 0 where
  pub addr : ℕ
  pub value : ℕ

-- The elements hang together, and the `next` of the last is `back`.
abbrev pub Linked : (ℕ → Option Cell) → (back : ℕ) → Elem → List Elem → Type 0
Linked cells back n [] = cells n.addr ≡ some (record { ptr = n.value; next = back })
Linked cells back n (m ∷ ns) =
    (cells n.addr ≡ some (record { ptr = n.value; next = m.addr })) × Linked cells back m ns

abbrev pub Apart : ℕ → List Elem → Type 0
Apart a ns = All (λ n. (a == n.addr) ≡ false) ns

abbrev pub Distinct : List Elem → Type 0
Distinct [] = Unit {0}
Distinct (n ∷ ns) = Apart n.addr ns × Distinct ns

abbrev pub last_elem : Elem → List Elem → Elem
last_elem n [] = n
last_elem n (m ∷ ns) = last_elem m ns

-- The list from `n` on, oldest first, is the queue at `start`.
pub record IsRing (h : Heap Cell) (start : ℕ) (n : Elem) (ns : List Elem) : Type 0 where
  pub linked : Linked h.cells n.addr n ns
  pub distinct : Distinct (n ∷ ns)
  pub old : All (λ e. e.addr < h.top) (n ∷ ns)
  pub last : (last_elem n ns).addr ≡ start

-- The queue holds these elements, oldest first.
abbrev pub IsQueue : Heap Cell → Option ℕ → List Elem → Type 0
IsQueue h none [] = Unit {0}
IsQueue h none (n ∷ ns) = ⊥
IsQueue h (some start) [] = ⊥
IsQueue h (some start) (n ∷ ns) = IsRing h start n ns

-- A cell elsewhere does not matter.
pub Linked-set :
    (cells : ℕ → Option Cell) (a : ℕ) (c : Option Cell) (back : ℕ) (n : Elem) (ns : List Elem)
    → Apart a (n ∷ ns)
    → Linked cells back n ns
    → Linked (set cells a c) back n ns
Linked-set cells a c back n [] apart l = rw apart.0 l
Linked-set cells a c back n (m ∷ ns) apart l =
    (rw apart.0 l.0, Linked-set cells a c back m ns apart.1 l.1)

pub at_last :
    (cells : ℕ → Option Cell) (back : ℕ) (n : Elem) (ns : List Elem)
    → Linked cells back n ns
    → cells (last_elem n ns).addr ≡ some (record { ptr = (last_elem n ns).value; next = back })
at_last cells back n [] l = l
at_last cells back n (m ∷ ns) l = at_last cells back m ns l.1

pub last-Apart :
    (a : ℕ) (n : Elem) (ns : List Elem) → Apart a (n ∷ ns) → (a == (last_elem n ns).addr) ≡ false
last-Apart a n [] h = h.0
last-Apart a n (m ∷ ns) h = last-Apart a m ns h.1

-- The `next` of the last element is set to `back'`.
pub relink :
    (cells : ℕ → Option Cell) (back back' : ℕ) (n : Elem) (ns : List Elem)
    → Distinct (n ∷ ns)
    → Linked cells back n ns
    → Linked
        (set cells
          (last_elem n ns).addr
          (some (record { ptr = (last_elem n ns).value; next = back' })))
        back'
        n
        ns
relink cells back back' n [] d l = ground arith
relink cells back back' n (m ∷ ns) d l =
    let off : ((last_elem m ns).addr == n.addr) ≡ false =
      ground (arith, last-Apart n.addr m ns d.0) in
    (rw off l.0, relink cells back back' m ns d.1 l.1)

-- One more element behind the last one.
pub Linked-append :
    (cells : ℕ → Option Cell) (back : ℕ) (n : Elem) (ns : List Elem) (e : Elem)
    → Linked cells e.addr n ns
    → cells e.addr ≡ some (record { ptr = e.value; next = back })
    → Linked cells back n (ns ++ e ∷ [])
Linked-append cells back n [] e l at = (l, at)
Linked-append cells back n (m ∷ ns) e l at = (l.0, Linked-append cells back m ns e l.1 at)

pub last_elem-append : (n : Elem) (ns : List Elem) (e : Elem) → last_elem n (ns ++ e ∷ []) ≡ e
last_elem-append n [] e = refl
last_elem-append n (m ∷ ns) e = last_elem-append m ns e

pub old-Apart : (top : ℕ) (ns : List Elem) → All (λ e. e.addr < top) ns → Apart top ns
old-Apart top [] h = tt
old-Apart top (n ∷ ns) h = (ground (arith, h.0), old-Apart top ns h.1)

pub Distinct-append :
    (ns : List Elem) (e : Elem) → Distinct ns → Apart e.addr ns → Distinct (ns ++ e ∷ [])
Distinct-append [] e d h = (tt, tt)
Distinct-append (n ∷ ns) e d h =
    (All-append _ ns (e ∷ []) d.0 (ground (arith, h.0), tt), Distinct-append ns e d.1 h.1)

pub raise : (top : ℕ) (ns : List Elem) → All (λ e. e.addr < top) ns → All (λ e. e.addr < top + 1) ns
raise top [] h = tt
raise top (n ∷ ns) h = (omega (arith, h.0), raise top ns h.1)
