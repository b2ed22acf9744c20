-- ===== src/Program/Runnable.antt =====
-- What the options of the command line keep of the settings.
use mathlib.Core.Path.{subst}
use tek.Prelude.{
  ℕ, ◌<◌, ◌^◌, ◌≡◌, refl, ap, Bool, true, false, not, Option, none, some, List, [], ◌∷◌, arith,
  >>=-eq-some, some-eq, if◌then◌else◌, ◌>>=◌,
}
use tek.Bytes.{block, memcmp}
use tek.Bytes.Numerals.{atoi}
use tek.Program.{
  Args, init_args, positive, number, process_flag, process_value, process_loop, dashed, is_option,
  api_option, mining_option, load_option, ip_option, port_option, ip2_option, port2_option,
  api_port_option, difficulty_option, nb_threads_option,
}
use tek.Program.Settings.{IsNumber}

abbrev pub IsPort : Option (List ℕ) → Type 0
IsPort none = Unit {0}
IsPort (some text) = (n : ℕ) × IsNumber text n

-- Numbers above 0 wherever the node needs them.
pub record IsRunnable (args : Args) : Type 0 where
  pub port : IsPort args.port
  pub port_first_server : IsPort args.port_first_server
  pub api_port : IsPort (some args.api_port)
  pub difficulty : positive args.difficulty ≡ true
  pub nb_mining_thread : positive args.nb_mining_thread ≡ true

-- What a run makes of settings, if it finds no fault, is runnable.
pub Keeps : Option (Bool × Args) → Type 0
Keeps m = (args' : Args) → m ≡ some (true, args') → IsRunnable args'

pub Keeps-IsRunnable :
    {m : Option (Bool × Args)} (args : Args) → Keeps m → m ≡ some (true, args) → IsRunnable args
unfolding Keeps
Keeps-IsRunnable args kept e = kept args e

KeepsFlag : Option (Option Args) → Type 0
KeepsFlag m = (args' : Args) → m ≡ some (some args') → IsRunnable args'

Keeps-if :
    (o : Option Bool) (x y : Option (Bool × Args))
    → Keeps x
    → Keeps y
    → Keeps (o >>= λ b. if b then x else y)
unfolding Keeps
Keeps-if none x y kx ky args' h = cc
Keeps-if (some true) x y kx ky args' h = kx args' h
Keeps-if (some false) x y kx ky args' h = ky args' h

Keeps-flag :
    (o : Option Bool) (x y : Option (Option Args))
    → KeepsFlag x
    → KeepsFlag y
    → KeepsFlag (o >>= λ b. if b then x else y)
unfolding KeepsFlag
Keeps-flag none x y kx ky args' h = cc
Keeps-flag (some true) x y kx ky args' h = kx args' h
Keeps-flag (some false) x y kx ky args' h = ky args' h

-- Both components of a pair.
pub pair_eq :
    {a b : Bool} {x y : Args}
    → Path (Option (Bool × Args)) (some (a, x)) (some (b, y))
    → (a ≡ b) × (x ≡ y)
pair_eq h = (ap (λ p. p.0) (some-eq h), ap (λ p. p.1) (some-eq h))

Keeps-done : (args : Args) → IsRunnable args → Keeps (some (true, args))
unfolding Keeps
Keeps-done args ok args' h = subst IsRunnable (pair_eq h).1 ok

Keeps-set : (args : Args) → IsRunnable args → KeepsFlag (some (some args))
unfolding KeepsFlag
Keeps-set args ok args' h = subst IsRunnable (some-eq (some-eq h)) ok

Keeps-none : KeepsFlag (some none)
unfolding KeepsFlag
Keeps-none args' h = let d : none ≡ some args' = some-eq h in cc

Keeps-fault : (args : Args) → Keeps (some (false, args))
unfolding Keeps
Keeps-fault args args' h = let d : false ≡ true = (pair_eq h).0 in cc

Keeps-number :
    (value : List ℕ) (f : ℕ → Args)
    → ((n : ℕ) → IsNumber value n → IsRunnable (f n))
    → Keeps (number value f)
unfolding number Keeps
Keeps-number value f keep args' h =
    let (n, read, rest) = >>=-eq-some (atoi value) _ h in
    let (p, e) = pair_eq rest in subst IsRunnable e (keep n (read, p))

module _ (args : Args) (ok : IsRunnable args) (arg value : List ℕ) where
  -- Settings that change nothing that `IsRunnable` is about.
  same_numbers :
      (ip first : Option (List ℕ)) (api mining load : Bool)
      → IsRunnable (record args {
        ip = ip;
        first_server_ip = first;
        api = api;
        mining = mining;
        load_blockchain = load;
      })
  same_numbers ip first api mining load = record {
    port = ok.port;
    port_first_server = ok.port_first_server;
    api_port = ok.api_port;
    difficulty = ok.difficulty;
    nb_mining_thread = ok.nb_mining_thread;
  }

  process_flag-Keeps : KeepsFlag (process_flag arg args)
  unfolding process_flag
  process_flag-Keeps =
      Keeps-flag (is_option api_option arg) _ _
        (Keeps-set _
          (same_numbers args.ip args.first_server_ip true args.mining args.load_blockchain))
        (Keeps-flag (is_option mining_option arg) _ _
          (Keeps-set _
            (same_numbers args.ip args.first_server_ip args.api true args.load_blockchain))
          (Keeps-flag (is_option load_option arg) _ _
            (Keeps-set _ (same_numbers args.ip args.first_server_ip args.api args.mining true))
            Keeps-none))

  process_value-Keeps : Keeps (process_value arg value args)
  unfolding process_value
  process_value-Keeps =
      Keeps-if (is_option ip_option arg) _ _
        (Keeps-done _ (
          same_numbers (some value) args.first_server_ip args.api args.mining args.load_blockchain))
        (Keeps-if (is_option port_option arg) _ _
          (Keeps-number value _ (λ n num. record {
            port = (n, num);
            port_first_server = ok.port_first_server;
            api_port = ok.api_port;
            difficulty = ok.difficulty;
            nb_mining_thread = ok.nb_mining_thread;
          }))
          (Keeps-if (is_option ip2_option arg) _ _
            (Keeps-done _
              (same_numbers args.ip (some value) args.api args.mining args.load_blockchain))
            (Keeps-if (is_option port2_option arg) _ _
              (Keeps-number value _ (λ n num. record {
                port = ok.port;
                port_first_server = (n, num);
                api_port = ok.api_port;
                difficulty = ok.difficulty;
                nb_mining_thread = ok.nb_mining_thread;
              }))
              (Keeps-if (is_option api_port_option arg) _ _
                (Keeps-number value _ (λ n num. record {
                  port = ok.port;
                  port_first_server = ok.port_first_server;
                  api_port = (n, num);
                  difficulty = ok.difficulty;
                  nb_mining_thread = ok.nb_mining_thread;
                }))
                (Keeps-if (is_option difficulty_option arg) _ _
                  (Keeps-number value _ (λ n num. record {
                    port = ok.port;
                    port_first_server = ok.port_first_server;
                    api_port = ok.api_port;
                    difficulty = num.1;
                    nb_mining_thread = ok.nb_mining_thread;
                  }))
                  (Keeps-if (is_option nb_threads_option arg) _ _
                    (Keeps-number value _ (λ n num. record {
                      port = ok.port;
                      port_first_server = ok.port_first_server;
                      api_port = ok.api_port;
                      difficulty = ok.difficulty;
                      nb_mining_thread = num.1;
                    }))
                    (Keeps-fault args)))))))

Keeps-then :
    (m : Option (Option Args)) (failed : Option (Bool × Args)) (go : Args → Option (Bool × Args))
    → KeepsFlag m
    → Keeps failed
    → ((a : Args) → IsRunnable a → Keeps (go a))
    → Keeps (m >>= λ flag. elim flag [ some a ↦ go a | none ↦ failed ])
unfolding Keeps KeepsFlag
Keeps-then none failed go km kf kg args' h = cc
Keeps-then (some none) failed go km kf kg args' h = kf args' h
Keeps-then (some (some a)) failed go km kf kg args' h = kg a (km a refl) args' h

Keeps-next :
    (m : Option (Bool × Args)) (go : Args → Option (Bool × Args))
    → Keeps m
    → ((a : Args) → IsRunnable a → Keeps (go a))
    → Keeps (m >>= λ x. if x.0 then go x.1 else some (false, x.1))
unfolding Keeps
Keeps-next none go km kg args' h = cc
Keeps-next (some (true, a)) go km kg args' h = kg a (km a refl) args' h
Keeps-next (some (false, a)) go km kg args' h = let d : false ≡ true = (pair_eq h).0 in cc

Keeps-cond :
    (b : Bool) (x y : Option (Bool × Args)) → Keeps x → Keeps y → Keeps (if b then x else y)
Keeps-cond true x y kx ky = kx
Keeps-cond false x y kx ky = ky

pub process_loop-Keeps :
    (argv : List (List ℕ)) (args : Args) → IsRunnable args → Keeps (process_loop argv args)
unfolding process_loop
process_loop-Keeps [] args ok = Keeps-done args ok
process_loop-Keeps (arg ∷ []) args ok =
    Keeps-then (process_flag arg args) (some (false, args)) (λ a. some (true, a))
      (process_flag-Keeps args ok arg []) (Keeps-fault args) Keeps-done
process_loop-Keeps (arg ∷ value ∷ argv) args ok =
    Keeps-then (process_flag arg args) _ (process_loop (value ∷ argv))
      (process_flag-Keeps args ok arg value)
      (Keeps-cond (not (dashed arg)) _ _ (Keeps-fault args) (
        Keeps-next (process_value arg value args) (process_loop argv)
          (process_value-Keeps args ok arg value) (process_loop-Keeps argv)))
      (process_loop-Keeps (value ∷ argv))

pub init_args-IsRunnable : (cores : ℕ) → cores < 2 ^ 31 → IsRunnable (init_args cores)
unfolding init_args tek.Bytes.Numerals.parse_number tek.Bytes.Numerals.signed_value
    tek.Bytes.Numerals.digits_value
init_args-IsRunnable cores few = record {
  port = tt;
  port_first_server = tt;
  api_port = (7072, (refl, refl));
  difficulty = refl;
  nb_mining_thread = ground arith;
}
