-- ===== src/Network/Clients/Changes.antt =====
-- What the operations of network_tools.c do to the list of clients.
use tek.Memory.{Heap, set, store, release}
use tek.Prelude.{
  ℕ, suc, ◌+◌, ◌<◌, ◌≡◌, refl, true, false, none, some, List, [], ◌∷◌, ◌++◌, arith, ◌==◌, ==_refl,
  All, All-append, replicate,
}
use tek.Network.Clients.{
  Address, ClientInfo, port_size, init_client_list, link_client, remove_client, free_loop,
}
use tek.Network.Clients.Ring.{
  Member, cell, Sentinel, head_cell, first_of, back_of, Apart, IsHead, IsClients, IsHead-set,
  Seg-set, Seg-split, Seg-join, All-split, Distinct-drop, Distinct-left, back-Apart, back-Apart_all,
  first-Apart, first_of-append, Front-next, Front-prev,
}

fresh : (top : ℕ) (ns : List Member) → All (λ n. n.addr < top) ns → Apart top ns
fresh top [] h = tt
fresh top (n ∷ ns) h = (ground (arith, h.0), fresh top ns h.1)

raise : (top : ℕ) (ns : List Member) → All (λ n. n.addr < top) ns → All (λ n. n.addr < top + 1) ns
raise top [] h = tt
raise top (n ∷ ns) h = (omega (arith, h.0), raise top ns h.1)

-- `initClientList` makes an empty list.
pub init_client_list-IsClients :
    (api mining : ℕ) (h : Heap ClientInfo)
    → IsClients (init_client_list api mining h).1 (init_client_list api mining h).0 []
unfolding init_client_list
init_client_list-IsClients api mining h = record {
  head = record {
    head = record {
      address = record { hostname = none; port = replicate (port_size + 1) 0 };
      api = api;
      mining = mining;
      prev = none;
    };
    at = rw (==_refl h.top) refl;
  };
  linked = tt;
  apart = tt;
  distinct = tt;
  old = tt;
  old_sentinel = omega arith;
}

module _ (h : Heap ClientInfo) (s : ℕ) where
  -- The element that `addClient` makes.
  abbrev pub made : Address → ℕ → ℕ → Member
  made address api mining = record { addr = h.top; address = address; api = api; mining = mining }

  -- `addClient`, when it is known what it finds on the heap.
  link_run :
      (address : Address) (api mining first : ℕ) (head : Sentinel) (c : ClientInfo)
      → (h.top == s) ≡ false
      → h.cells s ≡ some (head_cell s first head)
      → (let cells1 =
            set
              (set h.cells h.top (some (cell s (made address api mining) first s)))
              s
              (some (head_cell s h.top head)) in
          cells1 first ≡ some c
          → link_client h s address api mining
            ≡ some (
              h.top,
              record {
                cells = set cells1 first (some (record c { prev = some h.top }));
                top = h.top + 1;
              },
            ))
  unfolding link_client store
  link_run address api mining first head c off at found = rw (at, off, found)

  -- On a list of clients, `addClient` links a node that it reached in front of the others.
  pub link_client-IsClients :
      (ns : List Member) (address : Address) (api mining : ℕ)
      → IsClients h s ns
      → (h' : Heap ClientInfo) × (link_client h s address api mining ≡ some (h.top, h'))
        × IsClients h' s (made address api mining ∷ ns)
  link_client-IsClients ns address api mining ok =
      let new = made address api mining in
      let young = fresh h.top ns ok.old in
      let off : (h.top == s) ≡ false = ground (arith, ok.old_sentinel) in
      let off' : (s == h.top) ≡ false = ground (arith, ok.old_sentinel) in
      let here : (s == s) ≡ true = ground arith in
      let new_cell = some (cell s new (first_of s ns) s) in
      let cells0 = set h.cells h.top new_cell in
      let head0 = IsHead-set h.cells s _ h.top new_cell off ok.head in
      let linked0 = Seg-set s h.cells h.top new_cell s ns s young ok.linked in
      let cells1 = set cells0 s (some (head_cell s h.top ok.head.head)) in
      let head1 : IsHead cells1 s h.top = record { head = ok.head.head; at = rw here refl } in
      let linked1 = Seg-set s cells0 s _ s ns s ok.apart linked0 in
      let at_new : cells1 h.top ≡ new_cell = rw (off', ==_refl h.top) refl in
      let (c, at, ((head2, linked2), back2)) =
        Front-prev s cells1 (new ∷ []) ns s h.top (off', tt) ok.apart (young, ok.distinct)
          (head1, (at_new, tt)) linked1 in
      (
        record {
          cells = set cells1 (first_of s ns) (some (record c { prev = some h.top }));
          top = h.top + 1;
        },
        link_run address api mining (first_of s ns) ok.head.head c off ok.head.at at,
        record {
          head = head2;
          linked = (linked2.0, back2);
          apart = (off', ok.apart);
          distinct = (young, ok.distinct);
          old = (omega arith, raise h.top ns ok.old);
          old_sentinel = omega (arith, ok.old_sentinel);
        },
      )

  -- `removeClient`, when it is known what it finds on the heap.
  remove_run :
      (n : Member) (p e : ℕ) (c1 c2 d : ClientInfo)
      → h.cells n.addr ≡ some (cell s n e p)
      → h.cells p ≡ some c1
      → (let cells1 = set h.cells p (some (record c1 { next = e })) in
          cells1 e ≡ some c2
          → (let cells2 = set cells1 e (some (record c2 { prev = some p })) in
              cells2 n.addr ≡ some d
              → remove_client h n.addr ≡ some (true, record h { cells = set cells2 n.addr none })))
  unfolding remove_client store release
  remove_run n p e c1 c2 d here before behind still = rw (here, before, behind, still)

  -- On a list of clients, `removeClient` takes out and frees a client, and keeps the others in their
  -- order.
  pub remove_client-IsClients :
      (xs : List Member) (n : Member) (ys : List Member)
      → IsClients h s (xs ++ n ∷ ys)
      → (h' : Heap ClientInfo) × (remove_client h n.addr ≡ some (true, h'))
        × IsClients h' s (xs ++ ys)
        × (h'.cells n.addr ≡ none)
  remove_client-IsClients xs n ys ok =
      let (rest, before, after) = Distinct-drop xs n ys ok.distinct in
      let (ax, (an, ay)) = All-split _ xs (n ∷ ys) ok.apart in
      let (ox, (on, oy)) = All-split _ xs (n ∷ ys) ok.old in
      let (lx, (ln, ly)) = Seg-split s h.cells s xs (n ∷ ys) s ok.linked in
      let e = first_of s ys in
      let p = back_of s xs in
      let head : IsHead h.cells s (first_of n.addr xs) =
        rw⁻¹ (first_of-append s xs (n ∷ ys)) ok.head in
      let (c1, at1, front1) =
        Front-next s h.cells xs n.addr e ax (Distinct-left xs ys rest) (head, lx) in
      let off_p : (p == n.addr) ≡ false = back-Apart n.addr s xs (ground (arith, an)) before in
      let off_e : (e == n.addr) ≡ false = first-Apart n.addr s ys (ground (arith, an)) after in
      let cells1 = set h.cells p (some (record c1 { next = e })) in
      let behind = Seg-set s h.cells p _ n.addr ys s (back-Apart_all s xs ys ay rest) ly in
      let (c2, at2, ((head2, front2), back2)) =
        Front-prev s cells1 xs ys n.addr p ax ay rest front1 behind in
      let cells2 = set cells1 e (some (record c2 { prev = some p })) in
      let off : (n.addr == s) ≡ false = ground (arith, an) in
      (
        record h { cells = set cells2 n.addr none },
        remove_run n p e c1 c2 (cell s n e p) ln at1 at2 (rw (off_e, off_p) ln),
        record {
          head = rw (first_of-append s xs ys) (IsHead-set cells2 s _ n.addr none off head2);
          linked =
              Seg-join s _ s xs ys s (Seg-set s cells2 n.addr none s xs e before front2)
                (Seg-set s cells2 n.addr none p ys s after back2);
          apart = All-append _ xs ys ax ay;
          distinct = rest;
          old = All-append _ xs ys ox oy;
          old_sentinel = ok.old_sentinel;
        },
        rw (==_refl n.addr) refl,
      )

-- The loop of `freeClientList`, when it is known what it finds on the heap.
pub free_step :
    (fuel : ℕ) (h h1 : Heap ClientInfo) (s : ℕ) (head : Sentinel) (n : Member) (next prev : ℕ)
    → h.cells s ≡ some (head_cell s n.addr head)
    → h.cells n.addr ≡ some (cell s n next prev)
    → remove_client h n.addr ≡ some (true, h1)
    → free_loop (suc fuel) h s ≡ free_loop fuel h1 s
unfolding free_loop
free_step fuel h h1 s head n next prev at here removed = rw (at, here, removed)
