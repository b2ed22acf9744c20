-- ===== src/Api/Query.antt =====
-- The query of a posted transaction, and how `findInfoTxs` takes it apart.
use tek.Prelude.{
  ℕ, suc, ◌≡◌, refl, ap, ◌∙◌, true, false, ◌||◌, Option, none, some, List, [], ◌∷◌, ◌++◌, ◌==◌,
  ◌>>=◌, length, drop, All, append_assoc, arith, ◌<◌, ◌⊎◌, inl, inr,
}
use tek.Bytes.{block, memcmp}
use tek.Bytes.Numerals.{atol}
use tek.Api.{
  behind_question, cut_piece, cut_pieces, assign_infos, find_info_txs, sender_name, receiver_name,
  amount_name, transactions_post,
}

-- A text that neither ends a value nor the path.
abbrev pub IsValue : List ℕ → Type 0
IsValue = All (λ c. ((c == b'&') ≡ false) × ((c == 0) ≡ false) × ((c == 32) ≡ false))

abbrev pub sender_field : List ℕ
sender_field = b'?' ∷ b's' ∷ b'e' ∷ b'n' ∷ b'd' ∷ b'e' ∷ b'r' ∷ b'=' ∷ []

abbrev pub receiver_field : List ℕ
receiver_field = b'&' ∷ b'r' ∷ b'e' ∷ b'c' ∷ b'e' ∷ b'i' ∷ b'v' ∷ b'e' ∷ b'r' ∷ b'=' ∷ []

abbrev pub amount_field : List ℕ
amount_field = b'&' ∷ b'a' ∷ b'm' ∷ b'o' ∷ b'u' ∷ b'n' ∷ b't' ∷ b'=' ∷ []

abbrev pub post_query : (sender receiver amount : List ℕ) → List ℕ
post_query sender receiver amount =
    transactions_post
    ++ (sender_field ++ (sender ++ (receiver_field ++ (receiver ++ (amount_field ++ amount)))))

cut_piece-value :
    (p : List ℕ) (c : ℕ) (rest : List ℕ)
    → IsValue p
    → (c == b'&' || c == 0) ≡ true
    → cut_piece b'&' (p ++ c ∷ rest) ≡ some (p, rest)
unfolding cut_piece
cut_piece-value [] c rest ok stop = rw stop refl
cut_piece-value (x ∷ p) c rest ok stop =
    let (amp, nul, blank) = ok.0 in rw (amp, nul, cut_piece-value p c rest ok.1 stop) refl

-- A value, and what stands behind it.
cut_value :
    (room : ℕ) (p : List ℕ) (c : ℕ) (rest : List ℕ) {m : Option (List (List ℕ))}
    → IsValue p
    → (c == b'&' || c == 0) ≡ true
    → ((c == 0) ≡ false) ⊎ (0 < length p)
    → cut_pieces room true rest ≡ m
    → cut_pieces (suc room) false (p ++ c ∷ rest) ≡ (m >>= λ pieces. some (p ∷ pieces))
unfolding cut_pieces
cut_value room [] c rest ok stop (inl live) more =
    rw (live, cut_piece-value [] c rest ok stop, more) refl
cut_value room [] c rest ok stop (inr full) more = absurd (omega arith)
cut_value room (x ∷ p) c rest ok stop live more =
    let (amp, nul, blank) = ok.0 in rw (nul, cut_piece-value (x ∷ p) c rest ok stop, more) refl

-- The same query with a `&` behind the number.
abbrev pub closed_query : (sender receiver amount : List ℕ) → List ℕ
closed_query sender receiver amount =
    transactions_post
    ++ (sender_field
        ++ (sender ++ (receiver_field ++ (receiver ++ (amount_field ++ (amount ++ b'&' ∷ []))))))

module _ (s r a : List ℕ) (n : ℕ) (oks : IsValue s) (okr : IsValue r) (oka : IsValue a)
    (number : atol a ≡ some n) where
  closed_layout :
      (behind : List ℕ)
      → block (closed_query s r a) ++ behind
        ≡ transactions_post
          ++ (sender_field
              ++ (s ++ (receiver_field ++ (r ++ (amount_field ++ (a ++ b'&' ∷ 0 ∷ behind))))))
  closed_layout behind = simp (append_assoc)

  pieces_lem :
      (behind : List ℕ)
      → cut_pieces 6 true (
          drop 1 sender_field
          ++ (s ++ (receiver_field ++ (r ++ (amount_field ++ (a ++ b'&' ∷ 0 ∷ behind))))))
        ≡ some (sender_name ∷ s ∷ receiver_name ∷ r ∷ amount_name ∷ a ∷ [])
  unfolding cut_pieces cut_piece
  pieces_lem behind =
      let last : cut_pieces 0 true (0 ∷ behind) ≡ some [] = refl in
      let three = cut_value 0 a b'&' (0 ∷ behind) oka refl (inl refl) last in
      let two =
        cut_value 2 r b'&' (drop 1 amount_field ++ (a ++ b'&' ∷ 0 ∷ behind))
          {m = some (amount_name ∷ a ∷ [])} okr refl (inl refl) (rw three refl) in
      let one =
        cut_value 4 s b'&'
          (drop 1 receiver_field ++ (r ++ (amount_field ++ (a ++ b'&' ∷ 0 ∷ behind))))
          {m = some (receiver_name ∷ r ∷ amount_name ∷ a ∷ [])} oks refl (inl refl) (rw two refl) in
      rw one refl

  assigned :
      assign_infos
        (sender_name ∷ s ∷ receiver_name ∷ r ∷ amount_name ∷ a ∷ [])
        (record { amount = 0; sender = none; receiver = none })
      ≡ some (record { amount = n; sender = some s; receiver = some r })
  unfolding assign_infos memcmp
  assigned = rw number refl

  -- What `findInfoTxs` finds in a query with the three fields and a `&` behind the last, whatever is
  -- behind the string.
  pub find_info_txs-post :
      (behind : List ℕ)
      → find_info_txs (closed_query s r a) behind
        ≡ some (record { amount = n; sender = some s; receiver = some r })
  unfolding find_info_txs behind_question
  find_info_txs-post behind =
      ap
        (λ bytes. behind_question bytes >>= λ start. cut_pieces 6 true start >>= λ infos.
          assign_infos infos (record { amount = 0; sender = none; receiver = none }))
        (closed_layout behind)
      ∙ rw (pieces_lem behind, assigned) refl

module _ (s r a : List ℕ) (oks : IsValue s) (okr : IsValue r) (oka : IsValue a)
    (some_a : 0 < length a) where
  layout :
      (behind : List ℕ)
      → block (post_query s r a) ++ behind
        ≡ transactions_post
          ++ (sender_field ++ (s ++ (receiver_field ++ (r ++ (amount_field ++ (a ++ 0 ∷ behind))))))
  layout behind = simp (append_assoc)

  pieces_short :
      cut_pieces 6 true
        (drop 1 sender_field ++ (s ++ (receiver_field ++ (r ++ (amount_field ++ (a ++ 0 ∷ []))))))
      ≡ none
  unfolding cut_pieces cut_piece
  pieces_short =
      let last : cut_pieces 0 true [] ≡ none = refl in
      let three = cut_value 0 a 0 [] oka refl (inr some_a) last in
      let two =
        cut_value 2 r b'&' (drop 1 amount_field ++ (a ++ 0 ∷ [])) {m = none} okr refl (inl refl)
          (rw three refl) in
      let one =
        cut_value 4 s b'&' (drop 1 receiver_field ++ (r ++ (amount_field ++ (a ++ 0 ∷ []))))
          {m = none} oks refl (inl refl) (rw two refl) in
      rw one refl

  -- Without that `&`, `findInfoTxs` reads outside the string.
  pub find_info_txs-post_short : find_info_txs (post_query s r a) [] ≡ none
  unfolding find_info_txs behind_question
  find_info_txs-post_short =
      ap
        (λ bytes. behind_question bytes >>= λ start. cut_pieces 6 true start >>= λ infos.
          assign_infos infos (record { amount = 0; sender = none; receiver = none }))
        (layout [])
      ∙ rw pieces_short refl
