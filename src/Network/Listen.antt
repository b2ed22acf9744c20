-- ===== src/Network/Listen.antt =====
-- Projet/Network/server.c: the thread `Server`, which binds a socket and accepts connections.
pub mod Busy
pub mod Serves
use tek.Prelude.{
  ℕ, zero, suc, Bool, true, false, not, Option, none, some, List, [], ◌∷◌, if◌then◌else◌, ◌>>=◌,
}
use tek.Network.Clients.{Attempt}
use tek.Network.Receive.{Inbox, read_thread}
use tek.Network.Start.{Server, Status, online}

-- What the system answers in one turn of the first loop: a socket, and whether it could be bound.
pub record Bind : Type 0 where
  pub socket : Bool
  pub bound : Bool

-- The loop, with `addresses` of the list that `res` points to left: whether a socket is bound at its
-- end. A socket that cannot be bound is closed, and `res` stays where it is.
unfoldable pub bind_loop : (answers : List Bind) → (addresses : ℕ) → Option Bool
bind_loop answers zero = some false
bind_loop [] (suc addresses) = none
bind_loop (answer ∷ answers) (suc addresses) =
    let again = bind_loop answers (suc addresses) in
    let next = bind_loop answers addresses in
    if answer.socket then if answer.bound then some true else again else next

-- Up to the last loop. Without an address, `skt` was never set; without a socket, or if it cannot
-- listen, the program ends.
unfoldable pub start_server :
    (answers : List Bind) → (addresses : ℕ) → (listens : Bool) → Server → Option Server
start_server answers zero listens server = none
start_server answers (suc addresses) listens server = do
  bound ← bind_loop answers (suc addresses)
  if not bound then none else if not listens then none else some (record server { status = online })

-- What one turn of the last loop gets: no connection, or one with what it will deliver, and whether
-- its thread can be started.
pub data Accepted : Type 0 where
  nobody : Accepted
  connection : (socket : List (List ℕ)) → (started : Bool) → Accepted

-- The turns before the status is `EXITING`: the connections that get a thread.
unfoldable pub accept_loop : List Accepted → List (List (List ℕ))
accept_loop [] = []
accept_loop (nobody ∷ turns) = accept_loop turns
accept_loop (connection socket true ∷ turns) = socket ∷ accept_loop turns
accept_loop (connection socket false ∷ turns) = accept_loop turns

-- The threads, in the order in which they deliver. The numbers are those of `read_thread`.
unfoldable pub read_threads :
    (fuel find_fuel : ℕ) → (ℕ → Attempt) → (list : ℕ) → Inbox → List (List (List ℕ)) → Option Inbox
read_threads fuel find_fuel attempts list inbox [] = some inbox
read_threads fuel find_fuel attempts list inbox (socket ∷ sockets) = do
  inbox' ← read_thread fuel find_fuel attempts list inbox socket
  read_threads fuel find_fuel attempts list inbox' sockets
