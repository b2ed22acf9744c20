-- ===== src/Network/Clients/Free.antt =====
-- `freeClientList` releases the whole list.
use mathlib.Core.Path.{subst}
use tek.Memory.Free.{store-free, release-free}
use tek.Memory.{Heap, set, store, release}
use tek.Prelude.{
  ℕ, zero, suc, ◌<◌, ◌≡◌, refl, sym, ◌∙◌, Bool, true, false, Option, none, some, List, [], ◌∷◌,
  arith, ==_refl, All, length, ◌>>=◌, if◌then◌else◌,
}
use tek.Network.Clients.{ClientInfo, remove_client, free_loop, free_client_list}
use tek.Network.Clients.Ring.{Member, IsClients}
use tek.Network.Clients.Changes.{free_step, remove_client-IsClients}

-- A run that, if it ends, leaves this address free.
abbrev Leaves : ℕ → Option (Bool × Heap ClientInfo) → Type 0
Leaves b none = Unit {0}
Leaves b (some r) = r.1.cells b ≡ none

Leaves-bind {ℓ} :
    (b : ℕ) {A : Type ℓ} (m : Option A) (f : A → Option (Bool × Heap ClientInfo))
    → ((a : A) → m ≡ some a → Leaves b (f a))
    → Leaves b (m >>= f)
Leaves-bind b none f h = tt
Leaves-bind b (some a) f h = h a refl

Leaves-if :
    (b : ℕ) (test : Bool) (x y : Option (Bool × Heap ClientInfo))
    → Leaves b x
    → Leaves b y
    → Leaves b (if test then x else y)
Leaves-if b true x y hx hy = hx
Leaves-if b false x y hx hy = hy

remove_client-Leaves :
    (h : Heap ClientInfo) (a b : ℕ) → h.cells b ≡ none → Leaves b (remove_client h a)
unfolding remove_client
remove_client-Leaves h a b free = Leaves-bind b (h.cells a) _ λ c at.
    Leaves-if b c.is_sentinel _ _ free (
      Leaves-bind b c.prev _ λ p e0. Leaves-bind b (h.cells p) _ λ pc e1.
        Leaves-bind b (store h p (record pc { next = c.next })) _ λ h1 s1.
          Leaves-bind b (h1.cells c.next) _ λ n e2.
            Leaves-bind b (store h1 c.next (record n { prev = c.prev })) _ λ h2 s2.
              Leaves-bind b (release h2 a) _ λ h3 s3.
                release-free h2 a b (store-free h1 c.next b (store-free h p b free _ h1 s1) _ h2 s2)
                  h3 s3)

-- Removing a client leaves an address free that was free.
pub remove_client-free :
    (h h' : Heap ClientInfo) (a b : ℕ) (removed : Bool)
    → remove_client h a ≡ some (removed, h')
    → h.cells b ≡ none
    → h'.cells b ≡ none
remove_client-free h h' a b removed e free = subst (Leaves b) e (remove_client-Leaves h a b free)

free_loop-free :
    (fuel : ℕ) (h h' : Heap ClientInfo) (s b : ℕ) (ns : List Member)
    → length ns < fuel
    → IsClients h s ns
    → free_loop fuel h s ≡ some h'
    → h.cells b ≡ none
    → h'.cells b ≡ none
unfolding free_loop
free_loop-free zero h h' s b ns fits ok e free = absurd (omega arith)
free_loop-free (suc fuel) h h' s b [] fits ok e free =
    release-free h s b free h' (rw (ok.head.at, ok.head.at) at e)
free_loop-free (suc fuel) h h' s b (n ∷ ns) fits ok e free =
    let (h1, removed, ok1, gone) = remove_client-IsClients h s [] n ns ok in
    free_loop-free fuel h1 h' s b ns (omega arith) ok1
      (sym (free_step fuel h h1 s ok.head.head n _ _ ok.head.at ok.linked.0 removed) ∙ e)
      (remove_client-free h h1 n.addr b true removed free)

free_loop-all :
    (fuel : ℕ) (h : Heap ClientInfo) (s : ℕ) (ns : List Member)
    → length ns < fuel
    → IsClients h s ns
    → (h' : Heap ClientInfo) × (free_loop fuel h s ≡ some h')
      × (h'.cells s ≡ none)
      × All (λ n. h'.cells n.addr ≡ none) ns
unfolding free_loop release
free_loop-all zero h s ns fits ok = absurd (omega arith)
free_loop-all (suc fuel) h s [] fits ok =
    (record h { cells = set h.cells s none }, rw (ok.head.at, ok.head.at), rw (==_refl s) refl, tt)
free_loop-all (suc fuel) h s (n ∷ ns) fits ok =
    let (h1, removed, ok1, gone) = remove_client-IsClients h s [] n ns ok in
    let (h', freed, sentinel, all) = free_loop-all fuel h1 s ns (omega arith) ok1 in
    let step = free_step fuel h h1 s ok.head.head n _ _ ok.head.at ok.linked.0 removed in
    let here = free_loop-free fuel h1 h' s n.addr ns (omega arith) ok1 freed gone in
    (h', rw step freed, sentinel, (here, all))

-- On a list of clients and with fuel for one more, `freeClientList` ends, and releases the sentinel
-- and all clients, each of them once.
pub free_client_list-free :
    (fuel : ℕ) (h : Heap ClientInfo) (s : ℕ) (ns : List Member)
    → length ns < fuel
    → IsClients h s ns
    → (h' : Heap ClientInfo) × (free_client_list fuel h s ≡ some h')
      × (h'.cells s ≡ none)
      × All (λ n. h'.cells n.addr ≡ none) ns
unfolding free_client_list
free_client_list-free fuel h s ns fits ok =
    let (h', freed, sentinel, all) = free_loop-all fuel h s ns fits ok in
    (h', rw ok.head.at freed, sentinel, all)
