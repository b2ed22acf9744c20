-- ===== src/Api/Accept/Shared.antt =====
-- Which connections are served.
use tek.Prelude.{
  ℕ, zero, suc, ◌+◌, ◌-◌, ◌≡◌, refl, sym, ap, ◌∙◌, true, false, List, [], ◌∷◌, ◌++◌, arith, ◌==◌,
  All, All-append, append-nil, replicate, some, append_assoc, Bool-cases, inl, inr,
}
use tek.Network.Listen.{Bind}
use tek.Network.Listen.Busy.{taken}
use tek.Api.Accept.{Workers, Event, accepts, begins, bind_first, work, work_all}

-- Each worker begins before the next connection.
abbrev pub in_turn : List ℕ → List Event
in_turn [] = []
in_turn (c ∷ cs) = accepts c ∷ begins ∷ in_turn cs

-- When each worker begins before the next connection is accepted, all connections are served, each
-- by one worker, in their order.
pub work_all-in_turn :
    (cs : List ℕ) (w : Workers) → w.waiting ≡ 0 → (work_all w (in_turn cs)).served ≡ w.served ++ cs
unfolding work_all work
work_all-in_turn [] w idle = sym (append-nil w.served)
work_all-in_turn (c ∷ cs) w idle =
    let e : (w.waiting + 1 == 0) ≡ false = ground arith in
    let w1 : Workers = record {
      work_arg = c;
      waiting = w.waiting + 1 - 1;
      served = w.served ++ c ∷ [];
    } in
    rw (e, work_all, work)
      (work_all-in_turn cs w1 (omega arith) ∙ append_assoc w.served (c ∷ []) cs)

-- No event accepts this connection.
abbrev pub Without : ℕ → List Event → Type 0
Without c [] = Unit {0}
Without c (accepts d ∷ es) = ((d == c) ≡ false) × Without c es
Without c (begins ∷ es) = Without c es

abbrev pub Unserved : ℕ → List ℕ → Type 0
Unserved c = All (λ a. (a == c) ≡ false)

work_all-Unserved :
    (c : ℕ) (es : List Event) (w : Workers)
    → Without c es
    → (w.work_arg == c) ≡ false
    → Unserved c w.served
    → Unserved c (work_all w es).served
unfolding work_all work
work_all-Unserved c [] w without other absent = absent
work_all-Unserved c (accepts d ∷ es) w without other absent =
    work_all-Unserved c es (record w { work_arg = d; waiting = w.waiting + 1 }) without.1 without.0
      absent
work_all-Unserved c (begins ∷ es) w without other absent = elim (Bool-cases (w.waiting == 0)) [
  | inl e ↦ rw (e, work_all, work) (work_all-Unserved c es w without other absent)
  | inr e ↦
      let w1 = record w { waiting = w.waiting - 1; served = w.served ++ w.work_arg ∷ [] } in
      rw (e, work_all, work)
        (work_all-Unserved c es w1 without other
          (All-append _ w.served (w.work_arg ∷ []) absent (other, tt)))
]

-- When two connections are accepted one after the other, and no worker begins in between, the first
-- is served by no worker, whatever follows without it.
pub work_all-lost :
    (w : Workers) (c d : ℕ) (es : List Event)
    → (d == c) ≡ false
    → Without c es
    → Unserved c w.served
    → Unserved c (work_all w (accepts c ∷ accepts d ∷ es)).served
unfolding work_all work
work_all-lost w c d es other without absent =
    work_all-Unserved c es (record w { work_arg = d; waiting = w.waiting + 1 + 1 }) without other
      absent

-- `API` passes over the addresses that are taken and binds the next one.
pub bind_first-taken :
    (k : ℕ) (rest : List Bind)
    → bind_first (replicate k taken ++ record { socket = true; bound = true } ∷ rest) ≡ some k
unfolding bind_first
bind_first-taken zero rest = refl
bind_first-taken (suc k) rest = rw (bind_first-taken k rest) (ap some (omega arith))
