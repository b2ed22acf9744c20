-- ===== src/Examples/Queues.antt =====
-- The queues, on the data.
use tek.Prelude.{All, ℕ, ◌≡◌, refl, Option, none, some, List, [], ◌∷◌, arith}
use tek.Memory.{Heap, set}
use tek.Queue.{Cell, queue_push, queue_pop, queue_empty}
use tek.Queue.Ring.{pushed, queue_push-IsQueue, queue_pop-IsQueue, queue_empty-done}
use tek.Queue.Linked.{Elem, IsQueue}
use tek.Queue.Shared.{
  Move, turn, begin_push, begin_pop, Pc, idle, SharedQueue, run_moves, shared_queue_new,
}
use tek.Queue.Shared.Safe.{IsShared, run_moves-IsShared, shared_queue_new-IsShared}

-- Two elements, at 1 and at 2.
abbrev oldest : Elem
oldest = record { addr = 1; value = 10 }

abbrev newest : Elem
newest = record { addr = 2; value = 20 }

abbrev heap0 : Heap Cell
heap0 = record {
  cells =
      set (set (λ a. none) 1 (some (record { ptr = 10; next = 2 }))) 2
        (some (record { ptr = 20; next = 1 }));
  top = 3;
}

heap0-IsQueue : IsQueue heap0 (some 2) (oldest ∷ newest ∷ [])
heap0-IsQueue = record {
  linked = (refl, refl);
  distinct = ((refl, tt), (tt, tt));
  old = (omega arith, (omega arith, tt));
  last = refl;
}

queue_push-IsQueue_example :
    (q : ℕ) × (h' : Heap Cell) × (queue_push heap0 (some 2) 30 ≡ some (q, h'))
    × IsQueue h' (some q) (oldest ∷ newest ∷ pushed heap0 30 ∷ [])
queue_push-IsQueue_example =
    queue_push-IsQueue heap0 30 (some 2) (oldest ∷ newest ∷ []) heap0-IsQueue

queue_pop-IsQueue_example :
    (q : Option ℕ) × (h' : Heap Cell) × (queue_pop heap0 (some 2) ≡ some (10, q, h'))
    × IsQueue h' q (newest ∷ [])
    × (h'.cells 1 ≡ none)
queue_pop-IsQueue_example = queue_pop-IsQueue heap0 2 oldest (newest ∷ []) heap0-IsQueue

queue_empty-done_example :
    (h' : Heap Cell) × (queue_empty 2 heap0 (some 2) ≡ some h')
    × All (λ n. h'.cells n.addr ≡ none) (oldest ∷ newest ∷ [])
queue_empty-done_example =
    queue_empty-done 2 heap0 (some 2) (oldest ∷ newest ∷ []) (omega arith) heap0-IsQueue

-- A push and a pop that come in each other's way.
abbrev moves : List Move
moves =
    begin_pop 0
    ∷ begin_push 1 7
    ∷ turn 0
    ∷ turn 1
    ∷ turn 1
    ∷ turn 1
    ∷ turn 0
    ∷ turn 0
    ∷ turn 1
    ∷ turn 0
    ∷ turn 0
    ∷ turn 0
    ∷ []

run_moves-IsShared_example :
    (sq : SharedQueue) × (ps : List Pc) × (run_moves shared_queue_new (idle ∷ idle ∷ []) moves
      ≡ some (sq, ps))
    × IsShared sq ps
run_moves-IsShared_example =
    run_moves-IsShared shared_queue_new (idle ∷ idle ∷ []) moves (shared_queue_new-IsShared 2)
