-- ===== src/Mining/Threads/Race.antt =====
-- What holds in every order of the threads' steps.
use tek.Prelude.{
  ℕ, zero, suc, ◌+◌, ◌^◌, ◌≤◌, ◌<◌, ◌≡◌, refl, Bool, true, false, some, List, [], ◌∷◌, arith, ltb,
  ◌==◌, if◌then◌else◌, along, >>=-eq-some, Bool-cases, inl, inr, ◌⊎◌, some-eq, ==_iff, ==_refl,
  ltb→lt, sym, ◌∙◌,
}
use tek.Bytes.{IsUll}
use tek.Hash.{Sha}
use tek.Mining.{try_proof, testproof}
use tek.Mining.Threads.{
  Phase, testing, hashing, returned, Thread, Mine, update, created, finish_round, advance,
  thread_mining, collect,
}

module _ (sha : Sha) (diff : ℕ) (sum : List ℕ) (nbthread : ℕ) where
  -- One thread: outside the loop's body it has `res == 0` only with a good proof and the flag up,
  -- and it returns only when the flag is up.
  pub record IsSound (flag : Bool) (t : Thread) : Type 0 where
    pub hit : t.res ≡ false → try_proof sha diff sum t.proof ≡ some false
    pub raised : t.res ≡ false → flag ≡ true
    pub inside : t.phase ≡ hashing → t.res ≡ true
    pub left : t.phase ≡ returned → flag ≡ true
    pub range : IsUll t.proof

  -- All threads, and the one that raised the flag.
  pub record IsRace (m : Mine) : Type 0 where
    pub each : (i : ℕ) → i < nbthread → IsSound m.ismining (m.thread i)
    pub winner : m.ismining ≡ true → (i : ℕ) × (i < nbthread) × ((m.thread i).res ≡ false)

  pub created-IsRace : nbthread ≤ 2 ^ 64 → IsRace created
  created-IsRace few = record {
    each = λ i h. record {
      hit = λ e. cc;
      raised = λ e. cc;
      inside = λ e. refl;
      left = λ e. cc;
      range = omega arith;
    };
    winner = λ e. cc;
  }

  IsSound-raise :
      {flag flag' : Bool} {t : Thread}
      → (flag ≡ true → flag' ≡ true)
      → IsSound flag t
      → IsSound flag' t
  IsSound-raise up h = record {
    hit = h.hit;
    raised = λ e. up (h.raised e);
    inside = h.inside;
    left = λ e. up (h.left e);
    range = h.range;
  }

  -- One thread changes, and the flag may go up.
  update-IsRace :
      (m : Mine) (i : ℕ) (t : Thread) (flag : Bool)
      → (m.ismining ≡ true → flag ≡ true)
      → IsSound flag t
      → (flag ≡ true → (j : ℕ) × (j < nbthread) × ((update m.thread i t j).res ≡ false))
      → IsRace m
      → IsRace (record { ismining = flag; thread = update m.thread i t })
  update-IsRace m i t flag up sound winner race = record {
    each = λ j hj. elim (Bool-cases (i == j)) [
      | inl e ↦ rw e sound
      | inr e ↦ rw e (IsSound-raise up (race.each j hj))
    ];
    winner = winner;
  }

  -- The thread that raised the flag keeps `res == 0` when a thread changes that has `res == 1`, or
  -- that keeps its `res`.
  winner-update :
      (m : Mine) (i : ℕ) (t : Thread)
      → ((m.thread i).res ≡ false → t.res ≡ false)
      → IsRace m
      → m.ismining ≡ true
      → (j : ℕ) × (j < nbthread) × ((update m.thread i t j).res ≡ false)
  winner-update m i t keep race e =
      let (j, hj, r) = race.winner e in
      (
        j,
        hj,
        elim (Bool-cases (i == j)) [
          | inl same ↦ rw same (keep (rw ((==_iff i j).0 same) r))
          | inr other ↦ rw other r
        ],
      )

  testing-IsRace :
      (m : Mine) (i : ℕ)
      → (m.thread i).phase ≡ testing
      → i < nbthread
      → IsRace m
      → (m' : Mine) × (advance sha diff sum nbthread m i testing ≡ some m') × IsRace m'
  unfolding advance
  testing-IsRace m i at lt race =
      let sound = race.each i lt in
      (
        _,
        refl,
        update-IsRace m i _ m.ismining (λ e. e)
            (record {
              hit = sound.hit;
              raised = sound.raised;
              inside = ground arith;
              left = ground (arith, sound.raised);
              range = sound.range;
            })
            (winner-update m i _ (λ e. e) race) race,
      )

  finish_round-IsRace :
      (m : Mine) (i : ℕ) (missed : Bool)
      → (m.thread i).phase ≡ hashing
      → i < nbthread
      → try_proof sha diff sum (m.thread i).proof ≡ some missed
      → IsRace m
      → IsRace (finish_round sha diff sum nbthread m i missed)
  unfolding finish_round
  finish_round-IsRace m i true at lt e race =
      let sound = race.each i lt in
      update-IsRace m i _ m.ismining (λ u. u)
        (record {
          hit = λ u. cc;
          raised = λ u. cc;
          inside = λ u. refl;
          left = λ u. cc;
          range = omega arith;
        })
        (winner-update m i _ (λ u. cc (sound.inside at)) race) race
  finish_round-IsRace m i false at lt e race =
      let sound = race.each i lt in
      update-IsRace m i _ true (λ u. refl)
        (record {
          hit = λ u. e;
          raised = λ u. refl;
          inside = λ u. cc;
          left = λ u. refl;
          range = sound.range;
        })
        (λ u. (i, lt, rw (==_refl i))) race

  advance-IsRace :
      (m : Mine) (i : ℕ) (at : Phase) {m' : Mine}
      → (m.thread i).phase ≡ at
      → i < nbthread
      → IsRace m
      → advance sha diff sum nbthread m i at ≡ some m'
      → IsRace m'
  unfolding advance
  advance-IsRace m i testing at lt race e =
      let (m'', e', race') = testing-IsRace m i at lt race in along IsRace (sym e' ∙ e) race'
  advance-IsRace m i hashing at lt race e =
      let (missed, tried, done) = >>=-eq-some _ _ e in
      along IsRace done (finish_round-IsRace m i missed at lt tried race)
  advance-IsRace m i returned at lt race e = along IsRace e race

  turn-IsRace :
      (m : Mine) (i : ℕ) {m' : Mine}
      → IsRace m
      → (if ltb i nbthread then advance sha diff sum nbthread m i (m.thread i).phase else some m)
        ≡ some m'
      → IsRace m'
  turn-IsRace m i race e = elim (Bool-cases (ltb i nbthread)) [
    | inl b ↦ advance-IsRace m i _ refl (ltb→lt _ _ b) race (rw b at e)
    | inr b ↦ along IsRace (rw b at e) race
  ]

  pub thread_mining-IsRace :
      (schedule : List ℕ) (m : Mine) {m' : Mine}
      → IsRace m
      → thread_mining sha diff sum nbthread schedule m ≡ some m'
      → IsRace m'
  unfolding thread_mining
  thread_mining-IsRace [] m race e = along IsRace e race
  thread_mining-IsRace (i ∷ schedule) m race e =
      let (m'', turned, rest) = >>=-eq-some _ _ e in
      thread_mining-IsRace schedule m'' (turn-IsRace m i race turned) rest

  abbrev pub AllReturned : Mine → Type 0
  AllReturned m = (i : ℕ) → i < nbthread → (m.thread i).phase ≡ returned

  -- What `collect` has found so far: a proof that `testproof` accepts, unless every thread so far
  -- failed.
  module _ (slack : ℕ) (m : Mine) where
    abbrev pub Accepts : ℕ → Type 0
    Accepts p = (testproof sha slack diff sum p ≡ some false) × IsUll p

    pub collect-keeps :
        (ranges : (i : ℕ) → i < nbthread → IsUll (m.thread i).proof)
        (decides : (i : ℕ)
          → i < nbthread
          → (b : Bool) × (testproof sha slack diff sum (m.thread i).proof ≡ some b))
        (k n proof : ℕ)
        → n + k ≡ nbthread
        → Accepts proof ⊎ ((i : ℕ) × (n ≤ i) × (i < nbthread) × Accepts (m.thread i).proof)
        → (p : ℕ) × (collect sha diff sum nbthread slack m k n proof ≡ some p) × Accepts p
    unfolding collect
    collect-keeps ranges decides zero n proof e (inl good) = (proof, refl, good)
    collect-keeps ranges decides zero n proof e (inr (i, ge, lt, good)) = absurd (omega arith)
    collect-keeps ranges decides (suc k) n proof e some_good =
        let (b, tested) = decides n (omega arith) in
        rw tested (collect-keeps ranges decides k (n + 1) _ (omega arith) (next b tested some_good))
      where
        next :
            (b : Bool)
            → testproof sha slack diff sum (m.thread n).proof ≡ some b
            → Accepts proof ⊎ ((i : ℕ) × (n ≤ i) × (i < nbthread) × Accepts (m.thread i).proof)
            → Accepts (if b then proof else (m.thread n).proof)
              ⊎ ((i : ℕ) × (n + 1 ≤ i) × (i < nbthread) × Accepts (m.thread i).proof)
        next false tested good = inl (tested, ranges n (omega arith))
        next true tested (inl good) = inl good
        next true tested (inr (i, ge, lt, good)) = inr (
          i,
          later i ge (elim (Bool-cases (n == i)) [
            | inl same ↦ cc (same_thread ((==_iff n i).0 same) good tested)
            | inr other ↦ other
          ]),
          lt,
          good,
        )
          where
            same_thread :
                n ≡ i
                → Accepts (m.thread i).proof
                → testproof sha slack diff sum (m.thread n).proof ≡ some true
                → true ≡ false
            same_thread e good wrong = some-eq (sym wrong ∙ rw e good.0)

            later : (i : ℕ) → n ≤ i → (n == i) ≡ false → n + 1 ≤ i
            later i ge e = ground arith
