-- ===== src/Network/Receive/Whole.antt =====
-- `read_thread` delivers the message that another node wrote.
use tek.Prelude.{
  ℕ, suc, ◌+◌, ◌%◌, ◌<◌, ◌≡◌, refl, sym, ap, ◌∙◌, some, List, [], ◌∷◌, ◌++◌, arith, length,
  append-nil, append_assoc, length-append, some-eq, drop, ltb, ltb→lt, Bool-cases, inl, inr,
}
use tek.Bytes.{fetch, fetch_ull, le_bytes}
use tek.Bytes.Words.{fetch-append, fetch_ull-le_bytes, length-le_bytes}
use tek.Message.{Message, bin_to_message, message_to_bin}
use tek.Message.Binary.{IsMessage, bin_to_message-message_to_bin, fetch_byte}
use tek.Network.Clients.{Attempt}
use tek.Network.Receive.{
  Inbox, problem, received, header_size, read_loop, read_data, read_message, read_thread, deliver,
}
use tek.Network.Receive.Chunks.{stream, prefix_split, read_loop-received, read_loop_short}

abbrev pub header_of : Message → List ℕ
header_of m = (m.type % 256) ∷ le_bytes 8 m.size_data

-- The bytes of a message are its header and its payload.
pub message_to_bin-header :
    (m : Message) → IsMessage m → message_to_bin m ≡ some (header_of m ++ m.payload)
unfolding message_to_bin
message_to_bin-header m ok =
    let own : fetch m.size_data m.payload ≡ some (m.payload, []) =
      rw (append-nil m.payload) at (fetch-append m.size_data m.payload [] ok.size) in
    rw own refl

pub length-header : (m : Message) → length (header_of m) ≡ header_size
length-header m = ap suc (length-le_bytes 8 m.size_data)

size_lem : (m : Message) → IsMessage m → fetch_ull (le_bytes 8 m.size_data) ≡ some (m.size_data, [])
size_lem m ok =
    rw (append-nil (le_bytes 8 m.size_data)) at (fetch_ull-le_bytes m.size_data [] ok.ull)

module _ (fuel find_fuel : ℕ) (attempts : ℕ → Attempt) (list : ℕ) (inbox : Inbox)
    (socket : List (List ℕ)) (m : Message) (ok : IsMessage m) where
  -- Behind the first loop, when it is known what the second does.
  data_received :
      (socket1 socket2 : List (List ℕ))
      → read_loop m.size_data m.size_data socket1 (header_of m)
        ≡ received (header_of m ++ m.payload) socket2
      → read_data fuel find_fuel attempts list inbox (received (header_of m) socket1)
        ≡ deliver fuel find_fuel attempts list inbox m
  unfolding read_data read_message
  data_received socket1 socket2 second =
      let back : bin_to_message (header_of m ++ m.payload) ≡ some m =
        rw (message_to_bin-header m ok) at (bin_to_message-message_to_bin m ok) in
      rw (fetch_byte {b = m.type % 256} {bs = le_bytes 8 m.size_data}, size_lem m ok, second, back)
        refl

  data_short :
      (socket1 : List (List ℕ))
      → read_loop m.size_data m.size_data socket1 (header_of m) ≡ problem
      → read_data fuel find_fuel attempts list inbox (received (header_of m) socket1) ≡ some inbox
  unfolding read_data read_message
  data_short socket1 second =
      rw (fetch_byte {b = m.type % 256} {bs = le_bytes 8 m.size_data}, size_lem m ok, second) refl

  -- In whatever pieces the connection delivers the bytes of a well-formed message, and whatever follows them:
  -- `read_thread` stays inside its buffers and delivers that message.
  pub read_thread-deliver :
      (bytes rest : List ℕ)
      → message_to_bin m ≡ some bytes
      → stream socket ≡ bytes ++ rest
      → read_thread fuel find_fuel attempts list inbox socket
        ≡ deliver fuel find_fuel attempts list inbox m
  unfolding read_thread
  read_thread-deliver bytes rest written arrives =
      let whole : bytes ≡ header_of m ++ m.payload =
        some-eq (sym written ∙ message_to_bin-header m ok) in
      let split : stream socket ≡ header_of m ++ (m.payload ++ rest) =
        arrives ∙ ap (λ t. t ++ rest) whole ∙ append_assoc (header_of m) m.payload rest in
      let (socket1, first, behind) =
        read_loop-received header_size header_size socket [] (header_of m) (m.payload ++ rest)
          (omega arith) (length-header m) split in
      let (socket2, second, behind2) =
        read_loop-received m.size_data m.size_data socket1 (header_of m) m.payload rest
          (omega arith) ok.size behind in
      ap (read_data fuel find_fuel attempts list inbox) first ∙ data_received socket1 socket2 second

  -- If the connection ends inside the bytes of a well-formed message, nothing is delivered.
  pub read_thread_short :
      (bytes rest : List ℕ)
      → message_to_bin m ≡ some bytes
      → bytes ≡ stream socket ++ rest
      → 0 < length rest
      → read_thread fuel find_fuel attempts list inbox socket ≡ some inbox
  unfolding read_thread read_data
  read_thread_short bytes rest written cut missing =
      let e : stream socket ++ rest ≡ header_of m ++ m.payload =
        sym cut ∙ some-eq (sym written ∙ message_to_bin-header m ok) in
      let size9 = length-header m in
      elim (Bool-cases (ltb (length (stream socket)) header_size)) [
        | inl less ↦
            ap (read_data fuel find_fuel attempts list inbox)
              (read_loop_short header_size header_size socket [] (ltb→lt _ _ less))
        | inr more ↦
            let (whole, after) =
              prefix_split (header_of m) m.payload (stream socket) rest
                (ground (arith, more, size9)) (sym e) in
            let rest1 = drop (length (header_of m)) (stream socket) in
            let (socket1, first, behind) =
              read_loop-received header_size header_size socket [] (header_of m) rest1 (omega arith)
                size9 whole in
            let total : length m.payload ≡ length rest1 + length rest =
              ap length after ∙ length-append rest1 rest in
            let at1 : length (stream socket1) ≡ length rest1 = ap length behind in
            ap (read_data fuel find_fuel attempts list inbox) first
            ∙ data_short socket1 (
                read_loop_short m.size_data m.size_data socket1 (header_of m)
                  (omega (arith, total, at1, missing, ok.size)))
      ]
