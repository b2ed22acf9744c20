-- ===== src/Queue.antt =====
-- Projet/Tools/queue/queue.c: a circular list on the heap. A queue is the address of the element
-- pushed last, whose `next` is the oldest.
pub mod Ring
pub mod Shared
pub mod Linked
use tek.Memory.{Heap, store, release, alloc}
use tek.Prelude.{
  ℕ, zero, suc, ◌+◌, Bool, true, false, Option, none, some, List, [], ◌∷◌, ◌==◌, if◌then◌else◌,
  ◌>>=◌,
}

-- `queue`, the struct.
pub record Cell : Type 0 where
  pub ptr : ℕ
  pub next : ℕ

-- The pointer `NULL` is `none`.
unfoldable pub queue_push : Heap Cell → Option ℕ → ℕ → Option (ℕ × Heap Cell)
unfolding store
queue_push h none ptr = some (h.top, alloc h (record { ptr = ptr; next = h.top }))
queue_push h (some start) ptr = do
  s ← h.cells start
  let q = h.top
  h1 ← store (alloc h (record { ptr = ptr; next = s.next })) start (record s { next = q })
  some (q, h1)

-- The value, the new start, and the heap. The pop of an empty list ends the program.
unfoldable pub queue_pop : Heap Cell → Option ℕ → Option (ℕ × Option ℕ × Heap Cell)
unfolding store release
queue_pop h none = none
queue_pop h (some start) = do
  s ← h.cells start
  old ← h.cells s.next
  if s.next == start then (do h1 ← release h s.next; some (old.ptr, none, h1)) else do
    h1 ← store h start (record s { next = old.next })
    h2 ← release h1 s.next
    some (old.ptr, some start, h2)

-- The loop of `queue_empty`, on fuel: as much as there are elements is enough.
unfoldable pub queue_empty : (fuel : ℕ) → Heap Cell → Option ℕ → Option (Heap Cell)
unfolding queue_pop
queue_empty fuel h none = some h
queue_empty zero h (some start) = none
queue_empty (suc fuel) h (some start) = do
  (ptr, start', h') ← queue_pop h (some start)
  queue_empty fuel h' start'
