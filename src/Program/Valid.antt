-- ===== src/Program/Valid.antt =====
-- What the node is started with, whatever is on the command line.
use mathlib.Core.Path.{subst}
use tek.Prelude.{
  ℕ, ◌<◌, ◌^◌, ◌≡◌, ap, Bool, true, false, ◌||◌, Option, none, some, List, [], ◌∷◌, Option-cases,
  inl, inr, if◌then◌else◌, ◌>>=◌,
}
use tek.Bytes.{block, memcmp}
use tek.Program.{
  Args, Outcome, init_args, process_loop, processing_args, run_main, manual, launch, refused,
}
use tek.Program.Runnable.{
  Keeps-IsRunnable, IsRunnable, Keeps, init_args-IsRunnable, pair_eq, process_loop-Keeps,
}

-- A host name, and numbers above 0.
abbrev pub IsReady : Args → Type 0
IsReady args = ((ip : List ℕ) × (args.ip ≡ some ip)) × IsRunnable args

-- Behind the loop: the test on the host name.
with_ip :
    (m : Option (Bool × Args)) (args : Args)
    → Keeps m
    → Path
        (Option (Bool × Args))
        (◌>>=◌ {B = Bool × Args} m
          (λ x. elim x.1.ip [ none ↦ some (false, x.1) | some ip ↦ some (x.0, x.1) ]))
        (some (true, args))
    → IsReady args
with_ip none args km h = cc
with_ip (some (b, a)) args km h = elim (Option-cases a.ip) [
  | inl e ↦ (let d : false ≡ true = (pair_eq (rw e at h)).0 in cc)
  | inr (ip, e) ↦
      let (t, same) = pair_eq (rw e at h) in
      let kept = Keeps-IsRunnable a km (ap (λ c. some (c, a)) t) in
      subst IsReady same ((ip, e), kept)
]

launched :
    (m : Option (Bool × Args)) (args : Args)
    → (m >>= λ x. some (if x.0 then launch x.1 else refused)) ≡ some (launch args)
    → m ≡ some (true, args)
launched none args h = cc
launched (some (true, a)) args h = cc
launched (some (false, a)) args h = cc

-- Behind the tests for a call of the manual.
no_manual :
    (o o' : Option Bool) (m : Option Outcome) (args : Args)
    → (o >>= λ b. o' >>= λ b'. if b || b' then some manual else m) ≡ some (launch args)
    → m ≡ some (launch args)
no_manual none o' m args h = cc
no_manual (some b) none m args h = cc
no_manual (some true) (some b') m args h = cc
no_manual (some false) (some true) m args h = cc
no_manual (some false) (some false) m args h = h

-- Whatever the command line is: if `main` starts the node, then with a host name, and with numbers
-- above 0 for the ports, the difficulty and the number of threads. The machine has fewer than 2 ^ 31
-- cores.
pub run_main-IsRunnable :
    (cores : ℕ) (argv : List (List ℕ)) (args : Args)
    → cores < 2 ^ 31
    → run_main cores argv ≡ some (launch args)
    → IsReady args
unfolding run_main processing_args
run_main-IsRunnable cores [] args few h = cc
run_main-IsRunnable cores (arg ∷ rest) args few h =
    let start = init_args cores in
    with_ip (process_loop (arg ∷ rest) start) args
      (process_loop-Keeps (arg ∷ rest) start (init_args-IsRunnable cores few))
      (launched (processing_args (arg ∷ rest) start) args
        (no_manual (memcmp 2 (block arg) _) (memcmp 1 (block arg) _) _ args h))
