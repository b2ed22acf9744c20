-- ===== src/Network/Send/Failed.antt =====
-- Clients that got the message.
use tek.Memory.{Heap}
use tek.Prelude.{
  ℕ, suc, ◌+◌, ◌≡◌, refl, ap, ◌∙◌, some, List, [], ◌∷◌, ◌++◌, arith, length, replicate, append-nil,
}
use tek.Network.Clients.{ClientInfo}
use tek.Network.Clients.Ring.{Member, IsHead, IsClients, Seg, first_of}
use tek.Network.Send.{SendResult, delivered, sweep, send_message}

-- Clients that got the message stay.
pub sweep-delivered :
    (fuel : ℕ) (h : Heap ClientInfo) (s p : ℕ) (xs ys : List Member) (tab : List SendResult)
    → Seg s h.cells p (xs ++ ys) s
    → sweep (length xs + fuel) h (first_of s (xs ++ ys)) (replicate (length xs) delivered ++ tab)
      ≡ sweep fuel h (first_of s ys) tab
unfolding sweep
sweep-delivered fuel h s p [] ys tab l = ap (λ k. sweep k h (first_of s ys) tab) (omega arith)
sweep-delivered fuel h s p (x ∷ xs) ys tab l =
    let e : length (x ∷ xs) + fuel ≡ suc (length xs + fuel) = omega arith in
    rw (e, l.0) (sweep-delivered fuel h s x.addr xs ys tab l.1)

pub sweep-sentinel :
    (fuel : ℕ) (h : Heap ClientInfo) (s : ℕ) {first : ℕ} (tab : List SendResult)
    → IsHead h.cells s first
    → sweep (suc fuel) h s tab ≡ some h
unfolding sweep
sweep-sentinel fuel h s [] head = rw head.at refl
sweep-sentinel fuel h s (r ∷ tab) head = rw head.at refl

-- When all clients got the message, `SendMessage` ends and keeps them all.
pub send_message-delivered :
    (fuel : ℕ) (h : Heap ClientInfo) (s : ℕ) (ns : List Member)
    → IsClients h s ns
    → send_message (length ns + suc fuel) h s (replicate (length ns) delivered) ≡ some h
unfolding send_message
send_message-delivered fuel h s ns ok =
    let linked : Seg s h.cells s (ns ++ []) s = rw (append-nil ns) ok.linked in
    let swept : sweep (length ns + suc fuel) h (first_of s ns) (replicate (length ns) delivered)
        ≡ some h =
      rw (append-nil ns, append-nil (replicate (length ns) delivered)) at
        (sweep-delivered (suc fuel) h s s ns [] [] linked)
      ∙ sweep-sentinel fuel h s [] ok.head in
    rw (ok.head.at, ok.head.at) swept
