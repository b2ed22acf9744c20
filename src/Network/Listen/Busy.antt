-- ===== src/Network/Listen/Busy.antt =====
-- The first loop of `Server`, in front of an address that is taken.
use tek.Prelude.{ℕ, zero, suc, ◌+◌, ◌≡◌, refl, true, false, none, ◌++◌, arith, replicate}
use tek.Network.Listen.{Bind, bind_loop}

-- A turn that gets a socket and cannot bind it.
abbrev pub taken : Bind
taken = record { socket = true; bound = false }

-- A turn that gets no socket.
abbrev pub refused : Bind
refused = record { socket = false; bound = false }

stays : (n addresses : ℕ) → bind_loop (replicate n taken) (suc addresses) ≡ none
unfolding bind_loop
stays zero addresses = refl
stays (suc n) addresses = stays n addresses

-- Addresses for which there is no socket are passed over. In front of one whose socket can be made
-- and not bound, the first loop of `Server` stays, however often it tries and however many addresses
-- are left.
pub bind_loop-taken :
    (k n addresses : ℕ)
    → bind_loop (replicate k refused ++ replicate n taken) (suc (k + addresses)) ≡ none
unfolding bind_loop
bind_loop-taken zero n addresses = stays n _
bind_loop-taken (suc k) n addresses =
    let e : suc k + addresses ≡ suc (k + addresses) = omega arith in
    rw e (bind_loop-taken k n addresses)
