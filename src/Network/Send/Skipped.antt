-- ===== src/Network/Send/Skipped.antt =====
-- The client behind one that could not be reached.
use tek.Memory.{Heap}
use mathlib.Core.Path.{subst}
use tek.Prelude.{
  ℕ, zero, suc, ◌+◌, ◌≡◌, refl, sym, ap, ◌∙◌, true, some, List, [], ◌∷◌, ◌++◌, length, replicate,
  append-nil, append_assoc,
}
use tek.Network.Clients.{ClientInfo, remove_client}
use tek.Network.Clients.Ring.{Member, IsClients, Seg, cell, first_of, back_of, Seg-split}
use tek.Network.Clients.Changes.{remove_client-IsClients}
use tek.Network.Send.{SendResult, delivered, failed, sweep, send_message}
use tek.Network.Send.Failed.{sweep-delivered, sweep-sentinel}

turn_at :
    (fuel : ℕ) (h h' : Heap ClientInfo) (s p q : ℕ) (n m : Member) (next : ℕ)
    (tab : List SendResult)
    → h.cells n.addr ≡ some (cell s n m.addr p)
    → remove_client h n.addr ≡ some (true, h')
    → h'.cells m.addr ≡ some (cell s m next q)
    → sweep (suc fuel) h n.addr (failed ∷ tab) ≡ sweep fuel h' next tab
unfolding sweep
turn_at fuel h h' s p q n m next tab here removed behind = rw (here, removed, behind) refl

module _ (h : Heap ClientInfo) (s : ℕ) where
  -- The turn of a client that failed: it is removed, and the loop goes on behind the next one.
  failed_turn :
      (xs : List Member) (n m : Member) (ys : List Member)
      → IsClients h s (xs ++ n ∷ m ∷ ys)
      → (h' : Heap ClientInfo) × ((fuel : ℕ) (tab : List SendResult)
          → sweep (suc fuel) h n.addr (failed ∷ tab) ≡ sweep fuel h' (first_of s ys) tab)
        × IsClients h' s (xs ++ m ∷ ys)
  failed_turn xs n m ys ok =
      let (h', removed, ok', gone) = remove_client-IsClients h s xs n (m ∷ ys) ok in
      let (front, (here, rest)) = Seg-split s h.cells s xs (n ∷ m ∷ ys) s ok.linked in
      let (front', (behind, rest')) = Seg-split s h'.cells s xs (m ∷ ys) s ok'.linked in
      (h', (λ fuel tab. turn_at fuel h h' s _ _ n m _ tab here removed behind), ok')

  -- From a client on, all of which got the message.
  sweep-end :
      (fuel : ℕ) (xs ys : List Member) (tab : List SendResult)
      → IsClients h s (xs ++ ys)
      → sweep (length ys + suc fuel) h (first_of s ys) (replicate (length ys) delivered ++ tab)
        ≡ some h
  sweep-end fuel xs ys tab ok =
      let (front, rest) = Seg-split s h.cells s xs ys s ok.linked in
      let linked : Seg s h.cells _ (ys ++ []) s = rw (append-nil ys) rest in
      let swept = sweep-delivered (suc fuel) h s (back_of s xs) ys [] tab linked in
      ap
        (λ l.
          sweep (length ys + suc fuel) h (first_of s l) (replicate (length ys) delivered ++ tab))
        (sym (append-nil ys))
      ∙ swept
      ∙ sweep-sentinel fuel h s tab ok.head

replicate-more :
    (n : ℕ) (tab : List SendResult)
    → replicate n delivered ++ delivered ∷ tab ≡ delivered ∷ (replicate n delivered ++ tab)
replicate-more zero tab = refl
replicate-more (suc n) tab = ap (λ l. delivered ∷ l) (replicate-more n tab)

one_more : (n : ℕ) → replicate (suc n) delivered ≡ replicate n delivered ++ delivered ∷ []
one_more n =
    ap (λ l. delivered ∷ l) (sym (append-nil (replicate n delivered))) ∙ sym (replicate-more n [])

two_more :
    (n : ℕ)
    → replicate (suc (suc n)) delivered ≡ replicate n delivered ++ delivered ∷ delivered ∷ []
two_more n = ap (λ l. delivered ∷ l) (one_more n) ∙ sym (replicate-more n (delivered ∷ []))

-- When one client fails that is not the last of the list, `SendMessage` ends, removes it, and keeps
-- all others in their order.
pub send_message-failed :
    (fuel : ℕ) (h : Heap ClientInfo) (s : ℕ) (xs : List Member) (n m : Member) (ys : List Member)
    → IsClients h s (xs ++ n ∷ m ∷ ys)
    → (h' : Heap ClientInfo) × (send_message
          (length xs + suc (length ys + suc fuel))
          h
          s
          (replicate (length xs) delivered ++ failed ∷ replicate (length (m ∷ ys)) delivered)
        ≡ some h')
      × IsClients h' s (xs ++ m ∷ ys)
unfolding send_message
send_message-failed fuel h s xs n m ys ok =
    let (h', turn, ok') = failed_turn h s xs n m ys ok in
    let one = sweep-delivered (suc (length ys + suc fuel)) h s s xs (n ∷ m ∷ ys) _ ok.linked in
    let behind = subst (IsClients h' s) (sym (append_assoc xs (m ∷ []) ys)) ok' in
    let last = sweep-end h' s fuel (xs ++ m ∷ []) ys (delivered ∷ []) behind in
    let front = replicate (length xs) delivered in
    let fuel' = length xs + suc (length ys + suc fuel) in
    (
      h',
      rw (ok.head.at, ok.head.at)
          (subst
            (λ tab. sweep fuel' h (first_of s (xs ++ n ∷ m ∷ ys)) (front ++ failed ∷ tab) ≡ some h')
            (sym (one_more (length ys))) (one ∙ turn _ _ ∙ last)),
      ok',
    )

-- When two clients in a row fail, with others behind that did not, `SendMessage` ends and removes the
-- first of the two. It keeps the second one, and removes the client behind it, which got the message.
pub send_message-wrong :
    (fuel : ℕ) (h : Heap ClientInfo) (s : ℕ) (xs : List Member) (n m y z : Member)
    (ys : List Member)
    → IsClients h s (xs ++ n ∷ m ∷ y ∷ z ∷ ys)
    → (h' : Heap ClientInfo) × (send_message (length xs + suc (suc (length ys + suc fuel))) h s (
          replicate (length xs) delivered
          ++ failed ∷ failed ∷ replicate (length (y ∷ z ∷ ys)) delivered)
        ≡ some h')
      × IsClients h' s (xs ++ m ∷ z ∷ ys)
unfolding send_message
send_message-wrong fuel h s xs n m y z ys ok =
    let (h1, turn1, ok1) = failed_turn h s xs n m (y ∷ z ∷ ys) ok in
    let behind = subst (IsClients h1 s) (sym (append_assoc xs (m ∷ []) (y ∷ z ∷ ys))) ok1 in
    let (h2, turn2, ok2) = failed_turn h1 s (xs ++ m ∷ []) y z ys behind in
    let left = subst (IsClients h2 s) (sym (append_assoc (xs ++ m ∷ []) (z ∷ []) ys)) ok2 in
    let one =
      sweep-delivered (suc (suc (length ys + suc fuel))) h s s xs (n ∷ m ∷ y ∷ z ∷ ys) _
        ok.linked in
    let last =
      sweep-end h2 s fuel ((xs ++ m ∷ []) ++ z ∷ []) ys (delivered ∷ delivered ∷ []) left in
    let front = replicate (length xs) delivered in
    let fuel' = length xs + suc (suc (length ys + suc fuel)) in
    (
      h2,
      rw (ok.head.at, ok.head.at)
          (subst
            (λ tab.
              sweep fuel' h (first_of s (xs ++ n ∷ m ∷ y ∷ z ∷ ys)) (front ++ failed ∷ failed ∷ tab)
              ≡ some h2)
            (sym (two_more (length ys))) (one ∙ turn1 _ _ ∙ turn2 _ _ ∙ last)),
      subst (IsClients h2 s) (append_assoc xs (m ∷ []) (z ∷ ys)) ok2,
    )
