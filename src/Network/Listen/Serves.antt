-- ===== src/Network/Listen/Serves.antt =====
-- The messages of all connections.
use tek.Prelude.{
  ℕ, ◌≡◌, refl, sym, ap, ◌∙◌, true, false, some, List, [], ◌∷◌, ◌++◌, ◌==◌, append-nil,
  append_assoc,
}
use tek.Message.{Message, message_to_bin, type_network}
use tek.Message.Binary.{IsMessage}
use tek.Network.Clients.{Attempt}
use tek.Network.Receive.{Inbox, deliver, read_thread}
use tek.Network.Receive.Chunks.{stream}
use tek.Network.Receive.Whole.{read_thread-deliver}
use tek.Network.Listen.{Accepted, nobody, connection, accept_loop, read_threads}

-- A connection that delivers the bytes of a well-formed message for the node, and perhaps others
-- behind them.
pub record Carries (socket : List (List ℕ)) (m : Message) : Type 0 where
  pub formed : IsMessage m
  pub for_node : (m.type == type_network) ≡ false
  pub bytes : List ℕ
  pub rest : List ℕ
  pub written : message_to_bin m ≡ some bytes
  pub arrives : stream socket ≡ bytes ++ rest

-- The messages of the connections whose thread can be started, in the order of the turns.
abbrev pub Bring : List Accepted → List Message → Type 0
Bring [] [] = Unit {0}
Bring [] (m ∷ ms) = ⊥
Bring (nobody ∷ turns) ms = Bring turns ms
Bring (connection socket false ∷ turns) ms = Bring turns ms
Bring (connection socket true ∷ turns) [] = ⊥
Bring (connection socket true ∷ turns) (m ∷ ms) = Carries socket m × Bring turns ms

module _ (fuel find_fuel : ℕ) (attempts : ℕ → Attempt) (list : ℕ) where
  pub read_thread-incoming :
      (inbox : Inbox) (socket : List (List ℕ)) (m : Message)
      → Carries socket m
      → read_thread fuel find_fuel attempts list inbox socket
        ≡ some (record inbox { incoming = inbox.incoming ++ m ∷ [] })
  unfolding deliver
  read_thread-incoming inbox socket m c =
      read_thread-deliver fuel find_fuel attempts list inbox socket m c.formed c.bytes c.rest
        c.written c.arrives
      ∙ rw c.for_node refl

  -- Whatever turns of the last loop of `Server` find no connection or cannot start a thread: from the
  -- others, each with a well-formed message for the node in any pieces, the messages get into the
  -- queue in the order in which the threads deliver, which is here that of the connections, and
  -- nothing else changes.
  pub read_threads-accept_loop :
      (turns : List Accepted) (ms : List Message) (inbox : Inbox)
      → Bring turns ms
      → read_threads fuel find_fuel attempts list inbox (accept_loop turns)
        ≡ some (record inbox { incoming = inbox.incoming ++ ms })
  unfolding read_threads accept_loop
  read_threads-accept_loop [] [] inbox b =
      ap (λ t. some (record inbox { incoming = t })) (sym (append-nil inbox.incoming))
  read_threads-accept_loop [] (m ∷ ms) inbox b = absurd b
  read_threads-accept_loop (nobody ∷ turns) ms inbox b = read_threads-accept_loop turns ms inbox b
  read_threads-accept_loop (connection socket false ∷ turns) ms inbox b =
      read_threads-accept_loop turns ms inbox b
  read_threads-accept_loop (connection socket true ∷ turns) [] inbox b = absurd b
  read_threads-accept_loop (connection socket true ∷ turns) (m ∷ ms) inbox b =
      let inbox1 = record inbox { incoming = inbox.incoming ++ m ∷ [] } in
      rw (read_thread-incoming inbox socket m b.0) (
        read_threads-accept_loop turns ms inbox1 b.1
        ∙ ap (λ t. some (record inbox { incoming = t })) (append_assoc inbox.incoming (m ∷ []) ms))
