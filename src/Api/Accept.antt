-- ===== src/Api/Accept.antt =====
-- Projet/API/API.c: the function `API`, which binds a socket and starts a worker for each connection.
pub mod Shared
use tek.Prelude.{
  ℕ, zero, suc, ◌+◌, ◌-◌, Bool, true, false, not, Option, none, some, List, [], ◌∷◌, ◌++◌, ◌==◌,
  if◌then◌else◌, ◌>>=◌,
}
use tek.Network.Listen.{Bind}

-- The loop over the addresses, with what the system answers at each: the number of those that were
-- passed over.
unfoldable pub bind_first : List Bind → Option ℕ
bind_first [] = none
bind_first (answer ∷ answers) =
    let rest = bind_first answers in
    let next = rest >>= λ n. some (n + 1) in
    if not answer.socket then next else if answer.bound then some 0 else next

-- Up to the loop, with the addresses that `getaddrinfo` finds: the program ends if it finds none, if
-- none of them works, or if the socket cannot listen.
unfoldable pub start_api : Option (List Bind) → (listens : Bool) → Option ℕ
unfolding bind_first
start_api addresses listens = do
  answers ← addresses
  n ← bind_first answers
  if listens then some n else none

-- What the workers share: `client_socket_id` in the one `work_arg` that all of them are given, how
-- many of them have not read it yet, and the connections that the others serve.
pub record Workers : Type 0 where
  pub work_arg : ℕ
  pub waiting : ℕ
  pub served : List ℕ

-- A connection is accepted and a worker started, or a worker begins and reads `work_arg`. If either
-- call fails, the program ends, and no event follows.
pub data Event : Type 0 where
  accepts : ℕ → Event
  begins : Event

unfoldable pub work : Workers → Event → Workers
work w (accepts client_socket_id) = record w {
  work_arg = client_socket_id;
  waiting = w.waiting + 1;
}
work w begins =
    if w.waiting == 0
    then w
    else record w { waiting = w.waiting - 1; served = w.served ++ w.work_arg ∷ [] }

unfoldable pub work_all : Workers → List Event → Workers
unfolding work
work_all w [] = w
work_all w (e ∷ es) = work_all (work w e) es
