-- ===== src/Network/Send/One.antt =====
-- Projet/Network/client.c: `connectClient` and `SendMessageForOneClient`.
use tek.Prelude.{
  ℕ, ◌+◌, ◌≡◌, refl, sym, ap, ◌∙◌, Bool, true, false, not, ◌&&◌, Option, none, some, List, [], ◌∷◌,
  ◌++◌, arith, ◌==◌, if◌then◌else◌, ◌>>=◌, length, length-append, some-eq,
}
use tek.Message.{Message, message_to_bin}
use tek.Message.Binary.{IsMessage}
use tek.Network.Clients.{Address, Attempt}
use tek.Network.Receive.{Inbox, header_size, read_thread, deliver}
use tek.Network.Receive.Chunks.{stream}
use tek.Network.Receive.Whole.{header_of, length-header, message_to_bin-header, read_thread-deliver}
use tek.Network.Send.{send_all}
use tek.Network.Send.Partial.{send_all-whole, send_all_failed}

abbrev pub exit_success : ℕ
exit_success = 0

abbrev pub exit_failure : ℕ
exit_failure = 1

-- `reach` is what the system answers when a node at an address is contacted, and `fd` the socket that
-- it gives, if it gives one.
unfoldable pub connect_client : (reach : Address → Attempt) → Address → (fd : ℕ) → ℕ
connect_client reach address fd =
    let attempt = reach address in
    if not attempt.socket
    then exit_failure
    else if not attempt.option
    then exit_failure
    else if not (attempt.resolved && attempt.connected)
    then exit_failure
    else fd

-- The result, and the bytes that were sent to the client at this address. `closes` says whether
-- `close` succeeds.
unfoldable pub send_message_for_one_client :
    (reach : Address → Attempt)
    → Address
    → (fd : ℕ) → List (Option ℕ)
    → (closes : Bool) → Message
    → Option (ℕ × List ℕ)
send_message_for_one_client reach address fd answers closes message =
    let skt = connect_client reach address fd in
    if skt == exit_failure then some (exit_failure, []) else do
      bin ← message_to_bin message
      (done, sent) ← send_all answers (header_size + message.size_data) bin
      let failed = not done
      some (if not closes && failed then exit_failure else exit_success, sent)

abbrev pub reached : Attempt
reached = record { socket = true; option = true; resolved = true; connected = true }

module _ (reach : Address → Attempt) (address : Address) (up : reach address ≡ reached) (fd : ℕ)
    (own : (fd == exit_failure) ≡ false) (closes : Bool) (m : Message) (ok : IsMessage m) where
  -- With a reached client, the result is that of `Send`, seen through that of `close`.
  send_message_for_one_client-send :
      (answers : List (Option ℕ)) (done : Bool) (sent : List ℕ)
      → send_all answers (header_size + m.size_data) (header_of m ++ m.payload) ≡ some (done, sent)
      → send_message_for_one_client reach address fd answers closes m
        ≡ some (if not closes && not done then exit_failure else exit_success, sent)
  unfolding send_message_for_one_client connect_client
  send_message_for_one_client-send answers done sent e =
      rw (up, own, message_to_bin-header m ok, e) refl

  whole_size : header_size + m.size_data ≡ length (header_of m ++ m.payload)
  whole_size = omega (arith, length-append (header_of m) m.payload, length-header m, ok.size)

  -- A call of `send` that takes all bytes.
  pub send_message_for_one_client-whole :
      (answer : Option ℕ) (answers : List (Option ℕ))
      → send_message_for_one_client reach address fd
          (some (header_size + m.size_data) ∷ answer ∷ answers)
          closes
          m
        ≡ some (exit_success, header_of m ++ m.payload)
  send_message_for_one_client-whole answer answers =
      let bytes = header_of m ++ m.payload in
      let n = header_size + m.size_data in
      let all : send_all (some n ∷ answer ∷ answers) n bytes ≡ some (true, bytes) = rw whole_size (
        send_all-whole bytes (length bytes) answer answers (omega (arith, whole_size)) (omega arith)
        ∙ ground arith) in
      send_message_for_one_client-send (some n ∷ answer ∷ answers) true bytes all ∙ ground arith

  -- With a client that is reached on a socket other than 1, and a call of `send` that takes all
  -- bytes: `SendMessageForOneClient` sends the bytes of a well-formed message and reports success,
  -- whatever `close` answers. From a connection that delivers what was sent, in any pieces and with
  -- anything behind it, `read_thread` delivers that message.
  pub send_message_for_one_client-deliver :
      (answer : Option ℕ) (answers : List (Option ℕ)) (fuel find_fuel : ℕ) (attempts : ℕ → Attempt)
      (list : ℕ) (inbox : Inbox) (socket : List (List ℕ)) (sent rest : List ℕ)
      → message_to_bin m ≡ some sent
      → stream socket ≡ sent ++ rest
      → (send_message_for_one_client reach address fd
            (some (header_size + m.size_data) ∷ answer ∷ answers)
            closes
            m
          ≡ some (exit_success, sent))
        × (read_thread fuel find_fuel attempts list inbox socket
            ≡ deliver fuel find_fuel attempts list inbox m)
  send_message_for_one_client-deliver answer answers fuel find_fuel attempts list inbox socket sent
        rest written arrives =
      let whole : header_of m ++ m.payload ≡ sent =
        some-eq (sym (message_to_bin-header m ok) ∙ written) in
      (
        send_message_for_one_client-whole answer answers ∙ ap (λ t. some (exit_success, t)) whole,
        read_thread-deliver fuel find_fuel attempts list inbox socket m ok sent rest written
            arrives,
      )

  -- With a client that is reached on a socket other than 1, when the first call of `send` fails:
  -- nothing of a well-formed message is sent, and `SendMessageForOneClient` reports failure only if
  -- `close` fails too, and success otherwise.
  pub send_message_for_one_client-unsent :
      (answers : List (Option ℕ))
      → send_message_for_one_client reach address fd (none ∷ answers) closes m
        ≡ some (if closes then exit_success else exit_failure, [])
  send_message_for_one_client-unsent answers =
      let bytes = header_of m ++ m.payload in
      let n = header_size + m.size_data in
      let failed : send_all (none ∷ answers) n bytes ≡ some (false, []) =
        rw whole_size (send_all_failed bytes answers) in
      send_message_for_one_client-send (none ∷ answers) false [] failed ∙ ground arith
