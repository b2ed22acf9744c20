-- ===== src/Queue/Ring.antt =====
-- The circular list is a first-in, first-out queue.
use tek.Prelude.{
  >>=-eq-some, along, Bool-cases, inl, inr, ℕ, zero, suc, ◌+◌, ◌≤◌, ◌≡◌, refl, ap, sym, true, false,
  Option, none, some, List, [], ◌∷◌, ◌++◌, arith, All-append, ◌==◌, length, All,
}
use tek.Memory.Free.{store-free, release-free}
use tek.Memory.{Heap, set, store, release}
use tek.Queue.{Cell, queue_push, queue_pop, queue_empty}
use tek.Queue.Linked.{
  Distinct-append, Elem, IsQueue, IsRing, Linked-append, Linked-set, at_last, last-Apart, last_elem,
  last_elem-append, old-Apart, raise, relink,
}

module _ (h : Heap Cell) (ptr : ℕ) where
  abbrev pub pushed : Elem
  pushed = record { addr = h.top; value = ptr }

  push_first :
      (q : ℕ) × (h' : Heap Cell) × (queue_push h none ptr ≡ some (q, h'))
      × IsQueue h' (some q) (pushed ∷ [])
  unfolding queue_push
  push_first =
      let here : (h.top == h.top) ≡ true = ground arith in
      (
        _,
        _,
        refl,
        record { linked = rw here; distinct = (tt, tt); old = (omega arith, tt); last = refl },
      )

  push_more :
      (start : ℕ) (n : Elem) (ns : List Elem)
      → IsRing h start n ns
      → (q : ℕ) × (h' : Heap Cell) × (queue_push h (some start) ptr ≡ some (q, h'))
        × IsQueue h' (some q) (n ∷ (ns ++ pushed ∷ []))
  unfolding queue_push store
  push_more start n ns ring =
      let at = at_last h.cells n.addr n ns ring.linked in
      let fresh = old-Apart h.top (n ∷ ns) ring.old in
      let off = last-Apart h.top n ns fresh in
      let off' : ((last_elem n ns).addr == h.top) ≡ false = ground (arith, off) in
      let here : (h.top == h.top) ≡ true = ground arith in
      let c0 = some (record { ptr = ptr; next = n.addr }) in
      let cells1 = set h.cells h.top c0 in
      let linked1 = Linked-set h.cells h.top c0 n.addr n ns fresh ring.linked in
      let linked2 = relink cells1 n.addr h.top n ns ring.distinct linked1 in
      (
        h.top,
        record {
          cells =
              set cells1 (last_elem n ns).addr
                (some (record { ptr = (last_elem n ns).value; next = h.top }));
          top = h.top + 1;
        },
        rw (sym ring.last, at, off) refl,
        record {
          linked = Linked-append _ n.addr n ns pushed linked2 (rw (off', here) refl);
          distinct = Distinct-append (n ∷ ns) pushed ring.distinct fresh;
          old =
              All-append _ (n ∷ ns) (pushed ∷ []) (raise h.top (n ∷ ns) ring.old) (omega arith, tt);
          last = ap (λ e. e.addr) (last_elem-append n ns pushed);
        },
      )

  -- On a queue, `queue_push` puts the pointer behind the others.
  pub queue_push-IsQueue :
      (start : Option ℕ) (ns : List Elem)
      → IsQueue h start ns
      → (q : ℕ) × (h' : Heap Cell) × (queue_push h start ptr ≡ some (q, h'))
        × IsQueue h' (some q) (ns ++ pushed ∷ [])
  queue_push-IsQueue none [] ok = push_first
  queue_push-IsQueue none (n ∷ ns) ok = absurd ok
  queue_push-IsQueue (some start) [] ok = absurd ok
  queue_push-IsQueue (some start) (n ∷ ns) ok = push_more start n ns ok

module _ (h : Heap Cell) (start : ℕ) (n : Elem) where
  pop_only :
      IsRing h start n []
      → (q : Option ℕ) × (h' : Heap Cell) × (queue_pop h (some start) ≡ some (n.value, q, h'))
        × IsQueue h' q []
        × (h'.cells n.addr ≡ none)
  unfolding queue_pop release
  pop_only ring =
      let here : (n.addr == n.addr) ≡ true = ground arith in
      (
        none,
        record h { cells = set h.cells n.addr none },
        rw (sym ring.last, ring.linked, here, ring.linked) refl,
        tt,
        rw here refl,
      )

  pop_more :
      (m : Elem) (ns : List Elem)
      → IsRing h start n (m ∷ ns)
      → (q : Option ℕ) × (h' : Heap Cell) × (queue_pop h (some start) ≡ some (n.value, q, h'))
        × IsQueue h' q (m ∷ ns)
        × (h'.cells n.addr ≡ none)
  unfolding queue_pop release store
  pop_more m ns ring =
      let l = last_elem m ns in
      let at = at_last h.cells n.addr m ns ring.linked.1 in
      let here : (n.addr == n.addr) ≡ true = ground arith in
      let off = last-Apart n.addr m ns ring.distinct.0 in
      let off' : (l.addr == n.addr) ≡ false = ground (arith, off) in
      let cells1 = set h.cells l.addr (some (record { ptr = l.value; next = m.addr })) in
      let linked1 = relink h.cells n.addr m.addr m ns ring.distinct.1 ring.linked.1 in
      (
        some start,
        record h { cells = set cells1 n.addr none },
        rw (sym ring.last, at, ring.linked.0, off, off') refl,
        record {
          linked = Linked-set cells1 n.addr none m.addr m ns ring.distinct.0 linked1;
          distinct = ring.distinct.1;
          old = ring.old.1;
          last = ring.last;
        },
        rw here refl,
      )

  -- On a queue that is not empty, `queue_pop` takes the oldest pointer, keeps the others in their
  -- order, and frees its element.
  pub queue_pop-IsQueue :
      (ns : List Elem)
      → IsQueue h (some start) (n ∷ ns)
      → (q : Option ℕ) × (h' : Heap Cell) × (queue_pop h (some start) ≡ some (n.value, q, h'))
        × IsQueue h' q ns
        × (h'.cells n.addr ≡ none)
  queue_pop-IsQueue [] ok = pop_only ok
  queue_pop-IsQueue (m ∷ ns) ok = pop_more m ns ok

-- A pop leaves an address free that was free, and so does `queue_empty`.
queue_pop-free :
    (h h' : Heap Cell) (start b ptr : ℕ) (q : Option ℕ)
    → queue_pop h (some start) ≡ some (ptr, q, h')
    → h.cells b ≡ none
    → h'.cells b ≡ none
unfolding queue_pop
queue_pop-free h h' start b ptr q e free =
    let (s, at, k1) = >>=-eq-some (h.cells start) _ e in
    let (old, at', k2) = >>=-eq-some (h.cells s.next) _ k1 in
    elim (Bool-cases (s.next == start)) [
      | inl one ↦
          let (h1, freed, k3) = >>=-eq-some (release h s.next) _ (rw one at k2) in
          along (λ r. r.2.cells b ≡ none) k3 (release-free h s.next b free h1 freed)
      | inr more ↦
          let (h1, stored, k3) = >>=-eq-some (store h start _) _ (rw more at k2) in
          let (h2, freed, k4) = >>=-eq-some (release h1 s.next) _ k3 in
          along (λ r. r.2.cells b ≡ none) k4
            (release-free h1 s.next b (store-free h start b free _ h1 stored) h2 freed)
    ]

queue_empty-free :
    (fuel : ℕ) (h h' : Heap Cell) (start : Option ℕ) (b : ℕ)
    → queue_empty fuel h start ≡ some h'
    → h.cells b ≡ none
    → h'.cells b ≡ none
unfolding queue_empty
queue_empty-free fuel h h' none b e free = along (λ g. g.cells b ≡ none) e free
queue_empty-free zero h h' (some start) b e free = cc
queue_empty-free (suc fuel) h h' (some start) b e free =
    let ((ptr, q, h1), popped, rest) = >>=-eq-some (queue_pop h (some start)) _ e in
    queue_empty-free fuel h1 h' q b rest (queue_pop-free h h1 start b ptr q popped free)

-- On a queue, `queue_empty` ends, with as much fuel as there are elements, and frees each of them.
pub queue_empty-done :
    (fuel : ℕ) (h : Heap Cell) (start : Option ℕ) (ns : List Elem)
    → length ns ≤ fuel
    → IsQueue h start ns
    → (h' : Heap Cell) × (queue_empty fuel h start ≡ some h') × All (λ n. h'.cells n.addr ≡ none) ns
unfolding queue_empty
queue_empty-done fuel h none [] fits ok = (h, refl, tt)
queue_empty-done fuel h none (n ∷ ns) fits ok = absurd ok
queue_empty-done fuel h (some start) [] fits ok = absurd ok
queue_empty-done zero h (some start) (n ∷ ns) fits ok = absurd (omega (arith, fits))
queue_empty-done (suc fuel) h (some start) (n ∷ ns) fits ok =
    let (q, h1, popped, rest, gone) = queue_pop-IsQueue h start n ns ok in
    let (h2, emptied, all) = queue_empty-done fuel h1 q ns (omega arith) rest in
    (h2, rw popped emptied, (queue_empty-free fuel h1 h2 q n.addr emptied gone, all))
