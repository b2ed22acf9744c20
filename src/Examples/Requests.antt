-- ===== src/Examples/Requests.antt =====
-- The command line and a request to the HTTP server, on the data.
use tek.Prelude.{◌≡◌, refl, some, List, [], ◌∷◌, arith}
use tek.Bytes.Numerals.{atol}
use tek.Program.{Args, init_args, run_main, launch}
use tek.Program.Settings.{Setting, set_ip, set_difficulty, words, run_main-launch}
use tek.Program.Valid.{IsReady, run_main-IsRunnable}
use tek.Transaction.{init_list_txs}
use tek.Api.{Api}
use tek.Api.Query.{IsValue}
use tek.Examples.Data.{alice, bob, short_chain}

-- `-ip A -d 4`.
abbrev settings : List Setting
settings = set_ip alice ∷ set_difficulty (b'4' ∷ []) 4 ∷ []

abbrev four_args : Args
four_args = record (init_args 4) { ip = some alice; difficulty = 4 }

run_main-launch_example : run_main 4 (words settings) ≡ some (launch four_args)
unfolding init_args tek.Bytes.Numerals.parse_number tek.Bytes.Numerals.signed_value
    tek.Bytes.Numerals.digits_value
run_main-launch_example =
    run_main-launch (set_ip alice) (set_difficulty (b'4' ∷ []) 4 ∷ []) 4 alice
      (tt, ((refl, refl), tt)) refl

four_runs : run_main 4 (words settings) ≡ some (launch four_args)
unfolding init_args tek.Bytes.Numerals.parse_number tek.Bytes.Numerals.signed_value
    tek.Bytes.Numerals.digits_value run_main tek.Program.processing_args tek.Program.process_loop
    tek.Program.process_flag tek.Program.process_value tek.Program.number tek.Bytes.memcmp
four_runs = refl

run_main-IsRunnable_example : IsReady four_args
run_main-IsRunnable_example =
    run_main-IsRunnable 4 (words settings) four_args (omega arith) four_runs

pub alice-IsValue : IsValue alice
alice-IsValue = ((refl, refl, refl), tt)

pub bob-IsValue : IsValue bob
bob-IsValue = ((refl, refl, refl), tt)

pub five-IsValue : IsValue (b'5' ∷ [])
five-IsValue = ((refl, refl, refl), tt)

pub five-atol : atol (b'5' ∷ []) ≡ some 5
unfolding tek.Bytes.Numerals.parse_number tek.Bytes.Numerals.signed_value
    tek.Bytes.Numerals.digits_value
five-atol = refl

abbrev pub api0 : Api
api0 = record { tl = init_list_txs; bc = short_chain; outgoing_txs = [] }
