-- ===== src/Api/Serve.antt =====
-- Projet/API/API.c: `worker`, from the connection to its end, with its commands.
pub mod Answers
use tek.Memory.{Heap}
use tek.Prelude.{ℕ, Bool, Option, none, some, List, [], ◌∷◌, ◌++◌, ◌>>=◌, length, take}
use tek.Network.Clients.{ClientInfo}
use tek.Network.Listing.{server_list_to_json}
use tek.Api.{Api, Answer, silent, not_found, success, error, text, worker}
use tek.Api.Request.{read_request}
use tek.Api.Resend.{resend}

abbrev pub message200 : List ℕ
message200 =
    b'H' ∷ b'T' ∷ b'T' ∷ b'P' ∷ b'/' ∷ b'1' ∷ b'.' ∷ b'1' ∷ 32 ∷ b'2' ∷ b'0' ∷ b'0' ∷ 32 ∷ b'O'
    ∷ b'K' ∷ 10 ∷ b'A' ∷ b'c' ∷ b'c' ∷ b'e' ∷ b's' ∷ b's' ∷ b'-' ∷ b'C' ∷ b'o' ∷ b'n' ∷ b't' ∷ b'r'
    ∷ b'o' ∷ b'l' ∷ b'-' ∷ b'A' ∷ b'l' ∷ b'l' ∷ b'o' ∷ b'w' ∷ b'-' ∷ b'O' ∷ b'r' ∷ b'i' ∷ b'g'
    ∷ b'i' ∷ b'n' ∷ b':' ∷ 32 ∷ b'*' ∷ 13 ∷ 10 ∷ 13 ∷ 10 ∷ []

abbrev pub message404 : List ℕ
message404 =
    b'H' ∷ b'T' ∷ b'T' ∷ b'P' ∷ b'/' ∷ b'1' ∷ b'.' ∷ b'1' ∷ 32 ∷ b'4' ∷ b'0' ∷ b'4' ∷ 32 ∷ b'N'
    ∷ b'o' ∷ b't' ∷ 32 ∷ b'F' ∷ b'o' ∷ b'u' ∷ b'n' ∷ b'd' ∷ 10 ∷ b'A' ∷ b'c' ∷ b'c' ∷ b'e' ∷ b's'
    ∷ b's' ∷ b'-' ∷ b'C' ∷ b'o' ∷ b'n' ∷ b't' ∷ b'r' ∷ b'o' ∷ b'l' ∷ b'-' ∷ b'A' ∷ b'l' ∷ b'l'
    ∷ b'o' ∷ b'w' ∷ b'-' ∷ b'O' ∷ b'r' ∷ b'i' ∷ b'g' ∷ b'i' ∷ b'n' ∷ b':' ∷ 32 ∷ b'*' ∷ 13 ∷ 10 ∷ 13
    ∷ 10 ∷ []

abbrev pub success_text : List ℕ
success_text =
    b'{' ∷ b'"' ∷ b's' ∷ b'u' ∷ b'c' ∷ b'c' ∷ b'e' ∷ b's' ∷ b's' ∷ b'"' ∷ b':' ∷ b'"' ∷ b'o' ∷ b'k'
    ∷ b'"' ∷ b'}' ∷ []

abbrev pub error_text : List ℕ
error_text =
    b'{' ∷ b'"' ∷ b's' ∷ b'u' ∷ b'c' ∷ b'c' ∷ b'e' ∷ b's' ∷ b's' ∷ b'"' ∷ b':' ∷ b'"' ∷ b'e' ∷ b'r'
    ∷ b'r' ∷ b'o' ∷ b'r' ∷ b'"' ∷ b'}' ∷ []

-- A call of `send` whose result is not looked at.
abbrev pub send_once : Option ℕ → List ℕ → List ℕ
send_once none buf = []
send_once (some r) buf = take r buf

-- The status line, and then the message.
unfoldable pub send_answer : List (Option ℕ) → (message : List ℕ) → Option (List ℕ)
send_answer [] message = none
send_answer (first ∷ answers) message = do
  sent ← resend answers (length message) message
  some (send_once first message200 ++ sent)

-- `answers` is what the calls of `send` return.
unfoldable pub respond : List (Option ℕ) → Answer → Option (List ℕ)
unfolding send_answer
respond answers silent = some []
respond [] not_found = none
respond (first ∷ answers) not_found = some (send_once first message404)
respond answers success = send_answer answers success_text
respond answers error = send_answer answers error_text
respond answers (text message) = send_answer answers message

-- What a worker sends, and what it changes. It reads the list of servers from the heap of the
-- network; `fuel` is for that list.
unfoldable pub serve :
    (gives_one : List ℕ → Bool)
    → (fuel : ℕ) → Heap ClientInfo
    → (list now : ℕ) → Api
    → (behind : List ℕ) → (reads : List (Option (List ℕ))) → (answers : List (Option ℕ))
    → Option (List ℕ × Api)
serve gives_one fuel h list now api behind reads answers = do
  request ← read_request gives_one reads []
  elim request [
    | none ↦ some ([], api)
    | some full_request ↦ (do
      (answer, api') ← worker now (server_list_to_json fuel h list) api full_request behind
      sent ← respond answers answer
      some (sent, api'))
  ]
