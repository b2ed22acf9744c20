-- ===== src/Api/Post.antt =====
-- A request that posts a transaction.
use tek.Prelude.{
  ℕ, ◌≡◌, refl, ap, ◌∙◌, Option, some, List, [], ◌∷◌, ◌++◌, ◌==◌, if◌then◌else◌, ◌>>=◌, drop,
  append_assoc, Option-cases, inl, inr,
}
use tek.Bytes.{block, memcmp, until_nul}
use tek.Bytes.Numerals.{atol}
use tek.Bytes.Text.{text_eq}
use tek.Transaction.{create_txs}
use tek.Api.{
  Api, success, error, to_blank, up_to_blank, find_path, add_transaction_cmd, answer_path,
  post_info, worker, transactions_post,
}
use tek.Api.Query.{
  IsValue, closed_query, sender_field, receiver_field, amount_field, find_info_txs-post,
}

abbrev pub get_slash : List ℕ
get_slash = b'G' ∷ b'E' ∷ b'T' ∷ 32 ∷ b'/' ∷ []

-- The request of a browser, from its method on, with a `&` behind the last value.
abbrev pub post_request : (sender receiver amount rest : List ℕ) → List ℕ
post_request sender receiver amount rest =
    get_slash
    ++ (transactions_post
        ++ (sender_field
            ++ (sender
                ++ (receiver_field
                    ++ (receiver ++ (amount_field ++ (amount ++ b'&' ∷ 32 ∷ rest)))))))

pub up_to_blank-value :
    (p rest : List ℕ)
    → IsValue p
    → up_to_blank (p ++ rest) ≡ (up_to_blank rest >>= λ t. some (p ++ t))
unfolding up_to_blank
up_to_blank-value [] rest ok = elim (Option-cases (up_to_blank rest)) [
  | inl e ↦ rw e refl
  | inr (t, e) ↦ rw e refl
]
up_to_blank-value (x ∷ p) rest ok =
    let (amp, nul, blank) = ok.0 in
    rw (blank, up_to_blank-value p rest ok.1)
      (elim (Option-cases (up_to_blank rest)) [ inl e ↦ rw e refl | inr (t, e) ↦ rw e refl ])

until_nul-value : (p : List ℕ) → IsValue p → until_nul p ≡ p
unfolding until_nul
until_nul-value [] ok = refl
until_nul-value (x ∷ p) ok =
    let (amp, nul, blank) = ok.0 in rw nul (ap (λ t. x ∷ t) (until_nul-value p ok.1))

module _ (s r a : List ℕ) (n : ℕ) (oks : IsValue s) (okr : IsValue r) (oka : IsValue a)
    (number : atol a ≡ some n) where
  find_path-post : (rest : List ℕ) → find_path (post_request s r a rest) ≡ some (closed_query s r a)
  unfolding find_path to_blank up_to_blank
  find_path-post rest =
      let layout : block (post_request s r a rest)
          ≡ get_slash
            ++ (transactions_post
                ++ (sender_field
                    ++ (s
                        ++ (receiver_field
                            ++ (r ++ (amount_field ++ (a ++ b'&' ∷ 32 ∷ block rest))))))) =
        simp (append_assoc) in
      ap (λ bytes. to_blank bytes >>= λ at. up_to_blank (drop 2 at)) layout
      ∙ rw (up_to_blank-value s _ oks, up_to_blank-value r _ okr, up_to_blank-value a _ oka) refl

  -- A request with a sender, a receiver and a number, all without blanks and `&`: if the number is
  -- not 0, `worker` answers that it succeeded, and passes on that transaction with the time of the
  -- clock, and else it answers with an error. Nothing behind the path is read.
  pub worker-post :
      (now : ℕ) (servers : Option (List ℕ)) (api : Api) (rest behind : List ℕ)
      → worker now servers api (post_request s r a rest) behind
        ≡ some (
            if n == 0 then (error, api) else (
              success,
              record api {
                outgoing_txs =
                    api.outgoing_txs
                    ++ record { sender = s; receiver = r; amount = n; time = now } ∷ [];
              },
            ))
  unfolding worker answer_path memcmp text_eq add_transaction_cmd post_info create_txs
  worker-post now servers api rest behind =
      rw
        (
          find_path-post rest,
          find_info_txs-post s r a n oks okr oka number behind,
          until_nul-value s oks,
          until_nul-value r okr,
        )
        refl
