-- ===== src/Queue/Shared/Drain.antt =====
-- One thread that empties a shared queue, and `shared_queue_destroy`.
use tek.Prelude.{
  ℕ, zero, suc, ◌-◌, ◌<◌, ◌≡◌, refl, false, Option, none, some, List, [], ◌∷◌, arith, ◌==◌,
  if◌then◌else◌, ◌>>=◌, length,
}
use tek.Queue.Shared.{
  SharedQueue, Pc, idle, push_wait_lock, push_insert, push_post_size, push_post_lock, pop_wait_size,
  pop_wait_lock, pop_take, pop_post_lock, call, shared_queue_is_empty,
}

abbrev taken_by : Pc → Option ℕ
taken_by (pop_post_lock ptr) = some ptr
taken_by idle = none
taken_by (push_wait_lock ptr) = none
taken_by (push_insert ptr) = none
taken_by push_post_size = none
taken_by push_post_lock = none
taken_by pop_wait_size = none
taken_by pop_wait_lock = none
taken_by pop_take = none

-- The calls of `shared_queue_pop` without another thread in between; a call that waits is `none`.
unfoldable pub shared_queue_pop : SharedQueue → Option (ℕ × SharedQueue)
unfolding call
shared_queue_pop sq = do
  (sq1, pc1) ← call sq pop_wait_size
  (sq2, pc2) ← call sq1 pc1
  (sq3, pc3) ← call sq2 pc2
  (sq4, pc4) ← call sq3 pc3
  ptr ← taken_by pc3
  some (ptr, sq4)

-- `while (shared_queue_isEmpty(q) == FALSE)` pop, on fuel: the pointers that it gets.
unfoldable pub drain : (fuel : ℕ) → SharedQueue → Option (List ℕ × SharedQueue)
unfolding shared_queue_pop
drain zero sq = none
drain (suc fuel) sq =
    if shared_queue_is_empty sq
    then some ([], sq)
    else do (ptr, sq1) ← shared_queue_pop sq; (ptrs, sq2) ← drain fuel sq1; some (ptr ∷ ptrs, sq2)

-- The queue that is freed, with what is left of it; one whose lock is held waits on.
unfoldable pub shared_queue_destroy : SharedQueue → Option SharedQueue
shared_queue_destroy sq =
    if sq.lock == 0 then none else some (record sq { lock = sq.lock - 1; queue = [] })

-- A queue that no thread is in.
pub record IsQuiet (sq : SharedQueue) : Type 0 where
  pub lock : sq.lock ≡ 1
  pub size : sq.size ≡ length sq.queue

nonzero : (n : ℕ) → (suc n == 0) ≡ false
nonzero n = ground arith

drain-quiet :
    (fuel : ℕ) (ptrs : List ℕ)
    → length ptrs < fuel
    → drain fuel (record { lock = 1; size = length ptrs; queue = ptrs })
      ≡ some (ptrs, record { lock = 1; size = 0; queue = [] })
unfolding drain
drain-quiet zero ptrs fits = absurd (omega arith)
drain-quiet (suc fuel) [] fits = refl
drain-quiet (suc fuel) (ptr ∷ ptrs) fits =
    let rest = drain-quiet fuel ptrs (omega arith) in
    let less : suc (length ptrs) - 1 ≡ length ptrs = omega arith in
    rw (nonzero (length ptrs), less, rest) refl

-- A thread that is alone with a shared queue, with fuel for one more than its elements, pops them all
-- in their order, and leaves it empty and unlocked.
pub drain-all :
    (fuel : ℕ) (sq : SharedQueue)
    → length sq.queue < fuel
    → IsQuiet sq
    → drain fuel sq ≡ some (sq.queue, record { lock = 1; size = 0; queue = [] })
drain-all fuel sq fits quiet =
    let e : sq ≡ record { lock = 1; size = length sq.queue; queue = sq.queue } = ground arith in
    rw e (drain-quiet fuel sq.queue fits)
