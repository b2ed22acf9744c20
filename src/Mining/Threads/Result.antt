-- ===== src/Mining/Threads/Result.antt =====
-- What `mine_from_string` returns.
use tek.Prelude.{ℕ, ◌+◌, ◌^◌, ◌≤◌, ◌<◌, ◌≡◌, ◌∙◌, sym, Bool, false, some, List, arith, length, inr}
use tek.Bytes.{IsText, IsUll}
use tek.Hash.{Sha}
use tek.Mining.{try_proof, testproof}
use tek.Mining.Candidate.{candidate, try_proof-misses, testproof-misses}
use tek.Mining.Zeros.{misses-total}
use tek.Mining.Threads.{Mine, created, thread_mining, mine_from_string}
use tek.Mining.Threads.Race.{AllReturned, created-IsRace, thread_mining-IsRace, collect-keeps}

module _ (sha : Sha) (diff : ℕ) (sum : List ℕ) (slack : ℕ) (text : IsText sum)
    (short : length sum ≤ 235) (room : length sum ≤ 127 + slack) (proof : ℕ)
    (ull : IsUll proof) where
  -- With room for the candidates, a thread and `testproof` make the same test.
  testproof-try_proof : testproof sha slack diff sum proof ≡ try_proof sha diff sum proof
  testproof-try_proof =
      testproof-misses sha sum text proof diff slack ull room
      ∙ sym (try_proof-misses sha sum text proof diff short)

  testproof-total : diff ≤ 64 → (b : Bool) × (testproof sha slack diff sum proof ≡ some b)
  testproof-total easy =
      let (b, e) =
        misses-total diff (sha.digest (candidate sum proof)) (sha.length-digest _) easy in
      (b, testproof-misses sha sum text proof diff slack ull room ∙ e)

-- In every order of their steps: when all threads have returned, `mine_from_string` returns a
-- proof that `testproof` accepts and that fits 64 bits. There are 1 to 2 ^ 64 threads, the
-- difficulty is at most 64, the sum is a string, and there is room for the candidates in both
-- buffers.
pub mine_from_string-accepts :
    (sha : Sha) (diff : ℕ) (sum : List ℕ) (nbthread slack : ℕ) (schedule : List ℕ) {m : Mine}
    → 0 < nbthread
    → nbthread ≤ 2 ^ 64
    → diff ≤ 64
    → IsText sum
    → length sum ≤ 235
    → length sum ≤ 127 + slack
    → thread_mining sha diff sum nbthread schedule created ≡ some m
    → AllReturned sha diff sum nbthread m
    → (p : ℕ) × (mine_from_string sha diff sum nbthread slack m ≡ some p)
      × (testproof sha slack diff sum p ≡ some false)
      × IsUll p
unfolding mine_from_string
mine_from_string-accepts sha diff sum nbthread slack schedule {m} threads few easy text short room
      ran done =
    let race =
      thread_mining-IsRace sha diff sum nbthread schedule created
        (created-IsRace sha diff sum nbthread few) ran in
    let (w, lt, won) = race.winner ((race.each 0 threads).left (done 0 threads)) in
    let winner = race.each w lt in
    let good =
      testproof-try_proof sha diff sum slack text short room _ winner.range ∙ winner.hit won in
    let (p, run, good) =
      collect-keeps sha diff sum nbthread slack m (λ i h. (race.each i h).range)
        (λ i h. testproof-total sha diff sum slack text short room _ (race.each i h).range easy)
        nbthread 0 0 (omega arith) (inr (w, omega arith, lt, (good, winner.range))) in
    (p, run, good.0, good.1)
