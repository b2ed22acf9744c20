-- ===== src/Program/Settings.antt =====
-- The settings that a command line makes.
use tek.Prelude.{
  ℕ, ◌≡◌, refl, ◌∙◌, true, none, some, List, [], ◌∷◌, ◌++◌, if◌then◌else◌, ◌>>=◌, All,
}
use tek.Bytes.{memcmp}
use tek.Bytes.Numerals.{atoi}
use tek.Program.{
  Args, init_args, positive, number, process_flag, process_value, process_loop, processing_args,
  run_main, launch, refused, dashed, api_option, mining_option, load_option, ip_option, port_option,
  ip2_option, port2_option, api_port_option, difficulty_option, nb_threads_option,
}

-- One option, with its value and the number that the value is.
pub data Setting : Type 0 where
  set_api set_mining set_load : Setting
  set_ip set_first_server_ip : List ℕ → Setting
  set_port set_port_first_server set_api_port : List ℕ → ℕ → Setting
  set_difficulty set_nb_threads : List ℕ → ℕ → Setting

-- A number above 0, as `atoi` reads it.
abbrev pub IsNumber : List ℕ → ℕ → Type 0
IsNumber text n = (atoi text ≡ some n) × (positive n ≡ true)

abbrev pub IsSetting : Setting → Type 0
IsSetting set_api = Unit {0}
IsSetting set_mining = Unit {0}
IsSetting set_load = Unit {0}
IsSetting (set_ip text) = Unit {0}
IsSetting (set_first_server_ip text) = Unit {0}
IsSetting (set_port text n) = IsNumber text n
IsSetting (set_port_first_server text n) = IsNumber text n
IsSetting (set_api_port text n) = IsNumber text n
IsSetting (set_difficulty text n) = IsNumber text n
IsSetting (set_nb_threads text n) = IsNumber text n

-- What is written on the command line.
abbrev pub option_words : Setting → List (List ℕ)
option_words set_api = api_option ∷ []
option_words set_mining = mining_option ∷ []
option_words set_load = load_option ∷ []
option_words (set_ip text) = ip_option ∷ text ∷ []
option_words (set_first_server_ip text) = ip2_option ∷ text ∷ []
option_words (set_port text n) = port_option ∷ text ∷ []
option_words (set_port_first_server text n) = port2_option ∷ text ∷ []
option_words (set_api_port text n) = api_port_option ∷ text ∷ []
option_words (set_difficulty text n) = difficulty_option ∷ text ∷ []
option_words (set_nb_threads text n) = nb_threads_option ∷ text ∷ []

abbrev pub words : List Setting → List (List ℕ)
words [] = []
words (x ∷ ss) = option_words x ++ words ss

-- What it means.
abbrev pub make : Setting → Args → Args
make set_api args = record args { api = true }
make set_mining args = record args { mining = true }
make set_load args = record args { load_blockchain = true }
make (set_ip text) args = record args { ip = some text }
make (set_first_server_ip text) args = record args { first_server_ip = some text }
make (set_port text n) args = record args { port = some text }
make (set_port_first_server text n) args = record args { port_first_server = some text }
make (set_api_port text n) args = record args { api_port = text }
make (set_difficulty text n) args = record args { difficulty = n }
make (set_nb_threads text n) args = record args { nb_mining_thread = n }

abbrev pub make_all : List Setting → Args → Args
make_all [] args = args
make_all (x ∷ ss) args = make_all ss (make x args)

flag_step :
    (arg : List ℕ) (rest : List (List ℕ)) (args args' : Args)
    → process_flag arg args ≡ some (some args')
    → process_loop (arg ∷ rest) args ≡ process_loop rest args'
unfolding process_loop
flag_step arg [] args args' h = rw h refl
flag_step arg (value ∷ rest) args args' h = rw h refl

value_step :
    (arg value : List ℕ) (rest : List (List ℕ)) (args args' : Args)
    → process_flag arg args ≡ some none
    → dashed arg ≡ true
    → process_value arg value args ≡ some (true, args')
    → process_loop (arg ∷ value ∷ rest) args ≡ process_loop rest args'
unfolding process_loop
value_step arg value rest args args' f d h = rw (f, d, h) refl

number_lem :
    (text : List ℕ) (n : ℕ) (result : ℕ → Args)
    → IsNumber text n
    → number text result ≡ some (true, result n)
unfolding number
number_lem text n result (e, p) = rw (e, p) refl

setting_step :
    (x : Setting) (rest : List (List ℕ)) (args : Args)
    → IsSetting x
    → process_loop (option_words x ++ rest) args ≡ process_loop rest (make x args)
unfolding process_flag process_value memcmp
setting_step set_api rest args ok = flag_step api_option rest args (make set_api args) refl
setting_step set_mining rest args ok = flag_step mining_option rest args (make set_mining args) refl
setting_step set_load rest args ok = flag_step load_option rest args (make set_load args) refl
setting_step (set_ip text) rest args ok =
    value_step ip_option text rest args (make (set_ip text) args) refl refl refl
setting_step (set_first_server_ip text) rest args ok =
    value_step ip2_option text rest args (make (set_first_server_ip text) args) refl refl refl
setting_step (set_port text n) rest args ok =
    value_step port_option text rest args (make (set_port text n) args) refl refl
      (number_lem text n (λ n. record args { port = some text }) ok)
setting_step (set_port_first_server text n) rest args ok =
    value_step port2_option text rest args (make (set_port_first_server text n) args) refl refl
      (number_lem text n (λ n. record args { port_first_server = some text }) ok)
setting_step (set_api_port text n) rest args ok =
    value_step api_port_option text rest args (make (set_api_port text n) args) refl refl
      (number_lem text n (λ n. record args { api_port = text }) ok)
setting_step (set_difficulty text n) rest args ok =
    value_step difficulty_option text rest args (make (set_difficulty text n) args) refl refl
      (number_lem text n (λ n. record args { difficulty = n }) ok)
setting_step (set_nb_threads text n) rest args ok =
    value_step nb_threads_option text rest args (make (set_nb_threads text n) args) refl refl
      (number_lem text n (λ n. record args { nb_mining_thread = n }) ok)

pub process_loop-words :
    (ss : List Setting) (args : Args)
    → All IsSetting ss
    → process_loop (words ss) args ≡ some (true, make_all ss args)
unfolding process_loop
process_loop-words [] args ok = refl
process_loop-words (x ∷ ss) args ok =
    setting_step x (words ss) args ok.0 ∙ process_loop-words ss (make x args) ok.1

-- Options begin with no `h`, and none with `-h`.
no_help :
    (x : Setting) (ss : List Setting) (cores : ℕ)
    → run_main cores (words (x ∷ ss)) ≡ (do
      (correct, args) ← processing_args (words (x ∷ ss)) (init_args cores)
      some (if correct then launch args else refused))
unfolding run_main memcmp
no_help set_api ss cores = refl
no_help set_mining ss cores = refl
no_help set_load ss cores = refl
no_help (set_ip text) ss cores = refl
no_help (set_first_server_ip text) ss cores = refl
no_help (set_port text n) ss cores = refl
no_help (set_port_first_server text n) ss cores = refl
no_help (set_api_port text n) ss cores = refl
no_help (set_difficulty text n) ss cores = refl
no_help (set_nb_threads text n) ss cores = refl

-- A command line of options in any order, at least one of them the host name, and with numbers above
-- 0 where numbers are asked for, starts the node with the settings that it makes, from the
-- default ones on. A later option outdoes an earlier one.
pub run_main-launch :
    (x : Setting) (ss : List Setting) (cores : ℕ) (ip : List ℕ)
    → All IsSetting (x ∷ ss)
    → (make_all (x ∷ ss) (init_args cores)).ip ≡ some ip
    → run_main cores (words (x ∷ ss)) ≡ some (launch (make_all (x ∷ ss) (init_args cores)))
unfolding processing_args
run_main-launch x ss cores ip ok given =
    no_help x ss cores ∙ rw (process_loop-words (x ∷ ss) (init_args cores) ok, given) refl
