-- ===== src/Mining/Threads.antt =====
-- `thread_mining` and `mine_from_string`: threads that share the flag `ismining`, in any order.
pub mod Race
pub mod Result
use tek.Prelude.{
  ℕ, zero, suc, ◌+◌, ◌%◌, ◌^◌, ◌<◌, Bool, true, false, ◌&&◌, not, Option, none, some, List, [], ◌∷◌,
  ltb, ◌==◌, if◌then◌else◌, ◌>>=◌,
}
use tek.Hash.{Sha}
use tek.Mining.{try_proof, testproof}

-- Where a thread stands: at the loop's test, in the loop's body, or behind the loop.
pub data Phase : Type 0 where
  testing hashing returned : Phase

-- `res` is `res == 1`.
pub record Thread : Type 0 where
  pub proof : ℕ
  pub res : Bool
  pub phase : Phase

-- `ismining` is the flag `*ismining`: true when a thread has found a proof.
pub record Mine : Type 0 where
  pub ismining : Bool
  pub thread : ℕ → Thread

abbrev pub update : (ℕ → Thread) → ℕ → Thread → ℕ → Thread
update threads i t j = if i == j then t else threads j

-- The threads as `mine_from_string` creates them: thread `n` starts at `n`.
abbrev pub created : Mine
created = record {
  ismining = false;
  thread = λ n. record { proof = n; res = true; phase = testing };
}

module _ (sha : Sha) (diff : ℕ) (sum : List ℕ) (nbthread : ℕ) where
  -- The end of the loop's body, `missed` being the test on the hash.
  unfoldable pub finish_round : Mine → ℕ → Bool → Mine
  finish_round m i missed =
      let t = m.thread i in
      if missed
      then record m {
        thread =
            update m.thread i
              (record { proof = (t.proof + nbthread) % 2 ^ 64; res = true; phase = testing });
      }
      else record {
        ismining = true;
        thread = update m.thread i (record { proof = t.proof; res = false; phase = testing });
      }

  -- Thread `i` reads `while (res == 1 && *ismining == 0)`, or runs the body. The two are apart, so
  -- that other threads can come between them.
  unfoldable pub advance : Mine → ℕ → Phase → Option Mine
  unfolding finish_round
  advance m i testing =
      let t = m.thread i in
      let next = if t.res && not m.ismining then hashing else returned in
      some (record m {
        thread = update m.thread i (record { proof = t.proof; res = t.res; phase = next });
      })
  advance m i hashing = do
    missed ← try_proof sha diff sum (m.thread i).proof
    some (finish_round m i missed)
  advance m i returned = some m

  -- The threads take turns as the schedule says.
  unfoldable pub thread_mining : List ℕ → Mine → Option Mine
  unfolding advance
  thread_mining [] m = some m
  thread_mining (i ∷ schedule) m =
      let turn = if ltb i nbthread then advance m i (m.thread i).phase else some m in
      turn >>= thread_mining schedule

  -- The loop of `mine_from_string` over the joined threads `n`, …, `n + k - 1`.
  unfoldable pub collect : (slack : ℕ) → Mine → (k n proof : ℕ) → Option ℕ
  collect slack m zero n proof = some proof
  collect slack m (suc k) n proof = do
    wrong ← testproof sha slack diff sum (m.thread n).proof
    collect slack m k (n + 1) (if wrong then proof else (m.thread n).proof)

  -- `mine_from_string`, in the state `m` in which every thread has returned.
  unfoldable pub mine_from_string : (slack : ℕ) → Mine → Option ℕ
  unfolding collect
  mine_from_string slack m = collect slack m nbthread 0 0
