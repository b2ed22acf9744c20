-- ===== src/Queue/Shared/Safe.antt =====
-- No schedule makes a thread pop an empty queue, or two threads hold the lock.
use tek.Prelude.{
  ℕ, zero, suc, ◌+◌, ◌-◌, ◌≡◌, refl, ap, some, List, [], ◌∷◌, arith, ◌==◌, length, length-append,
  Bool-cases, inl, inr, replicate,
}
use tek.Queue.Shared.{
  SharedQueue, Pc, idle, push_wait_lock, push_insert, push_post_size, push_post_lock, pop_wait_size,
  pop_wait_lock, pop_take, pop_post_lock, call, Move, turn, begin_push, begin_pop, turn_at,
  begin_at, run_move, run_moves, shared_queue_new,
}

-- The thread has the lock.
unfoldable pub holds : Pc → ℕ
holds (push_insert ptr) = 1
holds push_post_size = 1
holds push_post_lock = 1
holds pop_take = 1
holds (pop_post_lock ptr) = 1
holds p = 0

-- A pointer in the queue that `size` does not count: already claimed, or not yet announced.
unfoldable pub uncounted : Pc → ℕ
uncounted push_post_size = 1
uncounted pop_wait_lock = 1
uncounted pop_take = 1
uncounted p = 0

unfoldable pub sum : (Pc → ℕ) → List Pc → ℕ
sum f [] = 0
sum f (p ∷ ps) = f p + sum f ps

-- The lock is free or one thread has it, and each pointer in the queue is counted, or claimed, or
-- about to be announced.
pub record IsShared (sq : SharedQueue) (ps : List Pc) : Type 0 where
  pub exclusive : sq.lock + sum holds ps ≡ 1
  pub counted : sq.size + sum uncounted ps ≡ length sq.queue

-- The same for one thread, beside others that hold `a` locks and account for `b` pointers.
record Beside (a b : ℕ) (sq : SharedQueue) (p : Pc) : Type 0 where
  exclusive : sq.lock + (holds p + a) ≡ 1
  counted : sq.size + (uncounted p + b) ≡ length sq.queue

Moves : ℕ → ℕ → SharedQueue → Pc → Type 0
Moves a b sq p = (sq' : SharedQueue) × (p' : Pc) × (call sq p ≡ some (sq', p')) × Beside a b sq' p'

take-Moves :
    (a b : ℕ) (sq : SharedQueue) (queue : List ℕ)
    → sq.queue ≡ queue
    → Beside a b sq pop_take
    → Moves a b sq pop_take
unfolding call holds uncounted Moves
take-Moves a b sq [] e ok = absurd (omega (arith, ok.counted, ap length e))
take-Moves a b sq (ptr ∷ queue) e ok = (
  record sq { queue = queue },
  pop_post_lock ptr,
  rw e refl,
  record {
    exclusive = omega (arith, ok.exclusive);
    counted = omega (arith, ok.counted, ap length e);
  },
)

call-Moves : (a b : ℕ) (sq : SharedQueue) (p : Pc) → Beside a b sq p → Moves a b sq p
unfolding call holds uncounted Moves
call-Moves a b sq idle ok = (_, _, refl, ok)
call-Moves a b sq (push_wait_lock ptr) ok = elim (Bool-cases (sq.lock == 0)) [
  | inl zero_lock ↦ (_, _, rw zero_lock refl, ok)
  | inr some_lock ↦ (
    record sq { lock = sq.lock - 1 },
    push_insert ptr,
    rw some_lock refl,
    record { exclusive = ground (arith, ok.exclusive); counted = ok.counted },
  )
]
call-Moves a b sq (push_insert ptr) ok = (
  _,
  _,
  refl,
  record {
    exclusive = ok.exclusive;
    counted = omega (arith, ok.counted, length-append sq.queue (ptr ∷ []));
  },
)
call-Moves a b sq push_post_size ok =
    (_, _, refl, record { exclusive = ok.exclusive; counted = omega (arith, ok.counted) })
call-Moves a b sq push_post_lock ok =
    (_, _, refl, record { exclusive = omega (arith, ok.exclusive); counted = ok.counted })
call-Moves a b sq pop_wait_size ok = elim (Bool-cases (sq.size == 0)) [
  | inl zero_size ↦ (_, _, rw zero_size refl, ok)
  | inr some_size ↦ (
    record sq { size = sq.size - 1 },
    pop_wait_lock,
    rw some_size refl,
    record { exclusive = ok.exclusive; counted = ground (arith, ok.counted) },
  )
]
call-Moves a b sq pop_wait_lock ok = elim (Bool-cases (sq.lock == 0)) [
  | inl zero_lock ↦ (_, _, rw zero_lock refl, ok)
  | inr some_lock ↦ (
    record sq { lock = sq.lock - 1 },
    pop_take,
    rw some_lock refl,
    record { exclusive = ground (arith, ok.exclusive); counted = ok.counted },
  )
]
call-Moves a b sq pop_take ok = take-Moves a b sq sq.queue refl ok
call-Moves a b sq (pop_post_lock ptr) ok =
    (_, _, refl, record { exclusive = omega (arith, ok.exclusive); counted = ok.counted })

-- All threads of a list, beside others.
record AllBeside (a b : ℕ) (sq : SharedQueue) (ps : List Pc) : Type 0 where
  exclusive : sq.lock + (sum holds ps + a) ≡ 1
  counted : sq.size + (sum uncounted ps + b) ≡ length sq.queue

turn_at-AllBeside :
    (a b : ℕ) (sq : SharedQueue) (i : ℕ) (ps : List Pc)
    → AllBeside a b sq ps
    → (sq' : SharedQueue) × (ps' : List Pc) × (turn_at sq i ps ≡ some (sq', ps'))
      × AllBeside a b sq' ps'
unfolding turn_at sum Moves
turn_at-AllBeside a b sq i [] ok = (sq, [], refl, ok)
turn_at-AllBeside a b sq zero (p ∷ ps) ok =
    let here : Beside (sum holds ps + a) (sum uncounted ps + b) sq p = record {
      exclusive = omega (arith, ok.exclusive);
      counted = omega (arith, ok.counted);
    } in
    let (sq', p', ran, good) = call-Moves (sum holds ps + a) (sum uncounted ps + b) sq p here in
    (
      sq',
      p' ∷ ps,
      rw ran refl,
      record { exclusive = omega (arith, good.exclusive); counted = omega (arith, good.counted) },
    )
turn_at-AllBeside a b sq (suc i) (p ∷ ps) ok =
    let rest : AllBeside (holds p + a) (uncounted p + b) sq ps = record {
      exclusive = omega (arith, ok.exclusive);
      counted = omega (arith, ok.counted);
    } in
    let (sq', ps', ran, good) = turn_at-AllBeside (holds p + a) (uncounted p + b) sq i ps rest in
    (
      sq',
      p ∷ ps',
      rw ran refl,
      record { exclusive = omega (arith, good.exclusive); counted = omega (arith, good.counted) },
    )

-- To begin a call takes no lock and claims nothing.
sum-begin_at :
    (f : Pc → ℕ) (first : Pc) (i : ℕ) (ps : List Pc)
    → f first ≡ f idle
    → sum f (begin_at first i ps) ≡ sum f ps
unfolding sum
sum-begin_at f first i [] e = refl
sum-begin_at f first zero (idle ∷ ps) e = ap (λ n. n + sum f ps) e
sum-begin_at f first zero (push_wait_lock ptr ∷ ps) e = refl
sum-begin_at f first zero (push_insert ptr ∷ ps) e = refl
sum-begin_at f first zero (push_post_size ∷ ps) e = refl
sum-begin_at f first zero (push_post_lock ∷ ps) e = refl
sum-begin_at f first zero (pop_wait_size ∷ ps) e = refl
sum-begin_at f first zero (pop_wait_lock ∷ ps) e = refl
sum-begin_at f first zero (pop_take ∷ ps) e = refl
sum-begin_at f first zero (pop_post_lock ptr ∷ ps) e = refl
sum-begin_at f first (suc i) (p ∷ ps) e = ap (λ n. f p + n) (sum-begin_at f first i ps e)

begin_at-IsShared :
    (sq : SharedQueue) (ps : List Pc) (first : Pc) (i : ℕ)
    → holds first ≡ holds idle
    → uncounted first ≡ uncounted idle
    → IsShared sq ps
    → IsShared sq (begin_at first i ps)
begin_at-IsShared sq ps first i e f ok = record {
  exclusive = omega (arith, ok.exclusive, sum-begin_at holds first i ps e);
  counted = omega (arith, ok.counted, sum-begin_at uncounted first i ps f);
}

run_move-IsShared :
    (sq : SharedQueue) (ps : List Pc) (m : Move)
    → IsShared sq ps
    → (sq' : SharedQueue) × (ps' : List Pc) × (run_move sq ps m ≡ some (sq', ps'))
      × IsShared sq' ps'
unfolding run_move holds uncounted
run_move-IsShared sq ps (turn i) ok =
    let all : AllBeside 0 0 sq ps = record {
      exclusive = omega (arith, ok.exclusive);
      counted = omega (arith, ok.counted);
    } in
    let (sq', ps', ran, good) = turn_at-AllBeside 0 0 sq i ps all in
    (
      sq',
      ps',
      ran,
      record { exclusive = omega (arith, good.exclusive); counted = omega (arith, good.counted) },
    )
run_move-IsShared sq ps (begin_push i ptr) ok =
    (sq, _, refl, begin_at-IsShared sq ps (push_wait_lock ptr) i refl refl ok)
run_move-IsShared sq ps (begin_pop i) ok =
    (sq, _, refl, begin_at-IsShared sq ps pop_wait_size i refl refl ok)

-- From a well-formed state, whatever the threads call and in whatever order their calls are made,
-- no thread pops an empty queue: the run goes on, the lock is free or held by one thread, and the
-- pointers are accounted for.
pub run_moves-IsShared :
    (sq : SharedQueue) (ps : List Pc) (ms : List Move)
    → IsShared sq ps
    → (sq' : SharedQueue) × (ps' : List Pc) × (run_moves sq ps ms ≡ some (sq', ps'))
      × IsShared sq' ps'
unfolding run_moves
run_moves-IsShared sq ps [] ok = (sq, ps, refl, ok)
run_moves-IsShared sq ps (m ∷ ms) ok =
    let (sq1, ps1, ran, good) = run_move-IsShared sq ps m ok in
    let (sq2, ps2, rest, good2) = run_moves-IsShared sq1 ps1 ms good in
    (sq2, ps2, rw ran rest, good2)

sum-idle : (f : Pc → ℕ) (n : ℕ) → f idle ≡ 0 → sum f (replicate n idle) ≡ 0
unfolding sum
sum-idle f zero e = refl
sum-idle f (suc n) e = omega (arith, e, sum-idle f n e)

-- A new queue, and `n` threads that are idle.
pub shared_queue_new-IsShared : (n : ℕ) → IsShared shared_queue_new (replicate n idle)
unfolding holds uncounted
shared_queue_new-IsShared n = record {
  exclusive = omega (arith, sum-idle holds n refl);
  counted = omega (arith, sum-idle uncounted n refl);
}
