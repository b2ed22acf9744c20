-- ===== src/Program.antt =====
-- Projet/main.c: the command line.
pub mod Settings
pub mod Valid
pub mod Launch
pub mod Runnable
use tek.Prelude.{
  ℕ, zero, suc, ◌+◌, ◌-◌, ◌*◌, ◌^◌, ◌<◌, Bool, true, false, not, ◌&&◌, ◌||◌, Option, none, some,
  List, [], ◌∷◌, ◌++◌, ◌==◌, ltb, leb, if◌then◌else◌, ◌>>=◌, length,
}
use tek.Bytes.{block, memcmp}
use tek.Bytes.Numerals.{atoi}

abbrev pub api_option : List ℕ
api_option = b'-' ∷ b'a' ∷ []

abbrev pub mining_option : List ℕ
mining_option = b'-' ∷ b'm' ∷ []

abbrev pub load_option : List ℕ
load_option = b'-' ∷ b'l' ∷ []

abbrev pub ip_option : List ℕ
ip_option = b'-' ∷ b'i' ∷ b'p' ∷ []

abbrev pub port_option : List ℕ
port_option = b'-' ∷ b'p' ∷ []

abbrev pub ip2_option : List ℕ
ip2_option = b'-' ∷ b'i' ∷ b'p' ∷ b'2' ∷ []

abbrev pub port2_option : List ℕ
port2_option = b'-' ∷ b'p' ∷ b'2' ∷ []

abbrev pub api_port_option : List ℕ
api_port_option = b'-' ∷ b'p' ∷ b'a' ∷ []

abbrev pub difficulty_option : List ℕ
difficulty_option = b'-' ∷ b'd' ∷ []

abbrev pub nb_threads_option : List ℕ
nb_threads_option = b'-' ∷ b'n' ∷ b'b' ∷ b't' ∷ b'h' ∷ b'r' ∷ []

abbrev pub default_api_port : List ℕ
default_api_port = b'7' ∷ b'0' ∷ b'7' ∷ b'2' ∷ []

-- `ARGS`, with its `NETWORK`.
pub record Args : Type 0 where
  pub ip : Option (List ℕ)
  pub port : Option (List ℕ)
  pub first_server_ip : Option (List ℕ)
  pub port_first_server : Option (List ℕ)
  pub api : Bool
  pub api_port : List ℕ
  pub mining : Bool
  pub difficulty : ℕ
  pub nb_mining_thread : ℕ
  pub load_blockchain : Bool

-- `cores` is what `sysconf` answers.
unfoldable pub init_args : (cores : ℕ) → Args
init_args cores = record {
  ip = none;
  port = none;
  first_server_ip = none;
  port_first_server = none;
  api = false;
  api_port = default_api_port;
  mining = false;
  difficulty = 3;
  nb_mining_thread = if cores - 1 == 0 then 1 else cores - 1;
  load_blockchain = false;
}

-- An `int` above 0.
abbrev pub positive : ℕ → Bool
positive n = ltb 0 n && ltb n (2 ^ 31)

-- `memcmp(arg, option, strlen(option) + 1) == 0`.
abbrev pub is_option : (option arg : List ℕ) → Option Bool
is_option option arg = memcmp (length option + 1) (block arg) (block option)

-- The options without a value.
unfoldable pub process_flag : List ℕ → Args → Option (Option Args)
process_flag arg args = do
  a ← is_option api_option arg
  if a then some (some (record args { api = true })) else do
    m ← is_option mining_option arg
    if m then some (some (record args { mining = true })) else do
      l ← is_option load_option arg
      if l then some (some (record args { load_blockchain = true })) else some none

-- A value that is to be a number above 0.
unfoldable pub number : List ℕ → (ℕ → Args) → Option (Bool × Args)
number value result = do n ← atoi value; some (positive n, result n)

-- The options with a value, and whether the value serves.
unfoldable pub process_value : (arg value : List ℕ) → Args → Option (Bool × Args)
process_value arg value args = do
  ip ← is_option ip_option arg
  if ip then some (true, record args { ip = some value }) else do
    p ← is_option port_option arg
    if p then number value (λ n. record args { port = some value }) else do
      ip2 ← is_option ip2_option arg
      if ip2 then some (true, record args { first_server_ip = some value }) else do
        p2 ← is_option port2_option arg
        if p2 then number value (λ n. record args { port_first_server = some value }) else do
          pa ← is_option api_port_option arg
          if pa then number value (λ n. record args { api_port = value }) else do
            d ← is_option difficulty_option arg
            if d then number value (λ n. record args { difficulty = n }) else do
              t ← is_option nb_threads_option arg
              if t
                  then number value (λ n. record args { nb_mining_thread = n })
                  else some (false, args)

-- `arg[0] == '-'`.
abbrev pub dashed : List ℕ → Bool
dashed [] = false
dashed (c ∷ cs) = c == b'-'

-- The loop of `ProcessingArgs`, from an argument on.
unfoldable pub process_loop : List (List ℕ) → Args → Option (Bool × Args)
process_loop [] args = some (true, args)
process_loop (arg ∷ []) args = do
  flag ← process_flag arg args
  elim flag [ some args' ↦ some (true, args') | none ↦ some (false, args) ]
process_loop (arg ∷ value ∷ rest) args = do
  flag ← process_flag arg args
  elim flag [
    | some args' ↦ process_loop (value ∷ rest) args'
    | none ↦ if not (dashed arg) then some (false, args) else do
      (correct, args') ← process_value arg value args
      if correct then process_loop rest args' else some (false, args')
  ]

-- The arguments behind the name of the program.
unfoldable pub processing_args : List (List ℕ) → Args → Option (Bool × Args)
processing_args argv args = do
  (correct, args') ← process_loop argv args
  elim args'.ip [ none ↦ some (false, args') | some ip ↦ some (correct, args') ]

-- What `main` does: print the manual, start the node, or complain.
pub data Outcome : Type 0 where
  manual : Outcome
  launch : Args → Outcome
  refused : Outcome

unfoldable pub run_main : (cores : ℕ) → List (List ℕ) → Option Outcome
run_main cores [] = some manual
run_main cores (arg ∷ rest) = do
  dash_h ← memcmp 2 (block arg) (block (b'-' ∷ b'h' ∷ []))
  h ← memcmp 1 (block arg) (block (b'h' ∷ []))
  if dash_h || h then some manual else do
    (correct, args) ← processing_args (arg ∷ rest) (init_args cores)
    some (if correct then launch args else refused)
