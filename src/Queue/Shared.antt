-- ===== src/Queue/Shared.antt =====
-- Projet/Tools/queue/shared_queue.c: threads that share a queue, its semaphore `lock` and its
-- semaphore `size`. Between two calls of a thread others can come.
pub mod Safe
pub mod Drain
use tek.Prelude.{
  ℕ, zero, suc, ◌+◌, ◌-◌, Bool, true, false, Option, none, some, List, [], ◌∷◌, ◌++◌, ◌==◌,
  if◌then◌else◌, ◌>>=◌, length,
}

-- The semaphores, and the pointers in the queue, oldest first.
pub record SharedQueue : Type 0 where
  pub lock : ℕ
  pub size : ℕ
  pub queue : List ℕ

-- Which call of `shared_queue_push` or of `shared_queue_pop` a thread comes to next.
pub data Pc : Type 0 where
  idle : Pc
  push_wait_lock push_insert : ℕ → Pc
  push_post_size push_post_lock : Pc
  pop_wait_size pop_wait_lock pop_take : Pc
  pop_post_lock : ℕ → Pc

abbrev pub shared_queue_new : SharedQueue
shared_queue_new = record { lock = 1; size = 0; queue = [] }

abbrev pub shared_queue_length : SharedQueue → ℕ
shared_queue_length sq = sq.size

abbrev pub shared_queue_is_empty : SharedQueue → Bool
shared_queue_is_empty sq = shared_queue_length sq == 0

-- One call; `sem_wait` on 0 waits on. The pop of an empty queue ends the program: `none`.
unfoldable pub call : SharedQueue → Pc → Option (SharedQueue × Pc)
call sq idle = some (sq, idle)
call sq (push_wait_lock ptr) =
    if sq.lock == 0
    then some (sq, push_wait_lock ptr)
    else some (record sq { lock = sq.lock - 1 }, push_insert ptr)
call sq (push_insert ptr) = some (record sq { queue = sq.queue ++ ptr ∷ [] }, push_post_size)
call sq push_post_size = some (record sq { size = sq.size + 1 }, push_post_lock)
call sq push_post_lock = some (record sq { lock = sq.lock + 1 }, idle)
call sq pop_wait_size =
    if sq.size == 0
    then some (sq, pop_wait_size)
    else some (record sq { size = sq.size - 1 }, pop_wait_lock)
call sq pop_wait_lock =
    if sq.lock == 0
    then some (sq, pop_wait_lock)
    else some (record sq { lock = sq.lock - 1 }, pop_take)
call sq pop_take = take_front sq.queue
  where
    take_front : List ℕ → Option (SharedQueue × Pc)
    take_front [] = none
    take_front (ptr ∷ queue) = some (record sq { queue = queue }, pop_post_lock ptr)
call sq (pop_post_lock ptr) = some (record sq { lock = sq.lock + 1 }, idle)

-- What the scheduler does: let thread `i` make its next call, or let it, when it is idle, begin with
-- `shared_queue_push` or `shared_queue_pop`.
pub data Move : Type 0 where
  turn : ℕ → Move
  begin_push : (i ptr : ℕ) → Move
  begin_pop : ℕ → Move

unfoldable pub turn_at : SharedQueue → ℕ → List Pc → Option (SharedQueue × List Pc)
unfolding call
turn_at sq i [] = some (sq, [])
turn_at sq zero (p ∷ ps) = do (sq', p') ← call sq p; some (sq', p' ∷ ps)
turn_at sq (suc i) (p ∷ ps) = do (sq', ps') ← turn_at sq i ps; some (sq', p ∷ ps')

abbrev pub begin : Pc → Pc → Pc
begin first idle = first
begin first p = p

abbrev pub begin_at : Pc → ℕ → List Pc → List Pc
begin_at first i [] = []
begin_at first zero (p ∷ ps) = begin first p ∷ ps
begin_at first (suc i) (p ∷ ps) = p ∷ begin_at first i ps

unfoldable pub run_move : SharedQueue → List Pc → Move → Option (SharedQueue × List Pc)
unfolding turn_at
run_move sq ps (turn i) = turn_at sq i ps
run_move sq ps (begin_push i ptr) = some (sq, begin_at (push_wait_lock ptr) i ps)
run_move sq ps (begin_pop i) = some (sq, begin_at pop_wait_size i ps)

unfoldable pub run_moves : SharedQueue → List Pc → List Move → Option (SharedQueue × List Pc)
unfolding run_move
run_moves sq ps [] = some (sq, ps)
run_moves sq ps (m ∷ ms) = run_move sq ps m >>= λ next. run_moves next.0 next.1 ms
