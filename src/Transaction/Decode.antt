-- ===== src/Transaction/Decode.antt =====
-- Whatever `binToTxs` reads from bytes is well formed.
use tek.Prelude.{
  ℕ, zero, suc, ◌+◌, ◌*◌, ◌^◌, ◌≤◌, ◌<◌, ◌≡◌, sym, some, List, [], ◌∷◌, ◌++◌, arith, >>=-eq-some,
  along, length, All,
}
use mathlib.Core.Path.{subst}
use tek.Bytes.{IsByte, IsText, IsUll, fetch, fetch_ull, le_value, until_nul}
use tek.Bytes.Words.{length-fetch}
use tek.Bytes.Text.{length-until_nul}
use tek.Transaction.{Transaction, get_size_of_txsbin, bin_to_txs}
use tek.Transaction.Binary.{IsTransaction}

All-append_split : (xs ys : List ℕ) → All IsByte (xs ++ ys) → All IsByte xs × All IsByte ys
All-append_split [] ys h = (tt, h)
All-append_split (x ∷ xs) ys h = let (a, b) = All-append_split xs ys h.1 in ((h.0, a), b)

-- What a copy takes out of bytes, and what it leaves.
pub record Fetched (n : ℕ) (bs front rest : List ℕ) : Type 0 where
  pub size : length front ≡ n
  pub left : length bs ≡ n + length rest
  pub front_bytes : All IsByte front
  pub rest_bytes : All IsByte rest

pub fetch-Fetched :
    (n : ℕ) (bs front rest : List ℕ)
    → All IsByte bs
    → fetch n bs ≡ some (front, rest)
    → Fetched n bs front rest
fetch-Fetched n bs front rest h e =
    let (size, left, whole) = length-fetch n bs front rest e in
    let (a, b) = All-append_split front rest (subst (All IsByte) (sym whole) h) in
    record { size = size; left = left; front_bytes = a; rest_bytes = b }

le_value-fits : (n : ℕ) (bs : List ℕ) → length bs ≡ n → All IsByte bs → le_value bs < 256 ^ n
unfolding le_value
le_value-fits zero [] e h = omega arith
le_value-fits zero (b ∷ bs) e h = absurd (omega arith)
le_value-fits (suc n) [] e h = absurd (omega arith)
le_value-fits (suc n) (b ∷ bs) e h = omega (arith, le_value-fits n bs (omega arith) h.1, h.0)

pub record FetchedUll (bs : List ℕ) (v : ℕ) (rest : List ℕ) : Type 0 where
  pub ull : IsUll v
  pub left : length bs ≡ 8 + length rest
  pub rest_bytes : All IsByte rest

pub fetch_ull-FetchedUll :
    (bs : List ℕ) (v : ℕ) (rest : List ℕ)
    → All IsByte bs
    → fetch_ull bs ≡ some (v, rest)
    → FetchedUll bs v rest
unfolding fetch_ull
fetch_ull-FetchedUll bs v rest h e =
    let ((word, after), got, done) = >>=-eq-some (fetch 8 bs) _ e in
    let f = fetch-Fetched 8 bs word after h got in
    let fits : le_value word < 2 ^ 64 = le_value-fits 8 word f.size f.front_bytes in
    along (λ (r : ℕ × List ℕ). FetchedUll bs r.0 r.1) done
      (record { ull = fits; left = f.left; rest_bytes = f.rest_bytes })

pub until_nul-IsText : (bs : List ℕ) → All IsByte bs → IsText (until_nul bs)
unfolding until_nul
until_nul-IsText [] h = tt
until_nul-IsText (b ∷ bs) h = ground (arith, until_nul-IsText bs h.1)

-- A transaction that `binToTxs` reads from bytes, fewer than 2 ^ 64 of them, is well formed, and
-- no longer than they.
pub bin_to_txs-IsTransaction :
    (bin : List ℕ) (t : Transaction)
    → All IsByte bin
    → IsUll (length bin)
    → bin_to_txs bin ≡ some t
    → IsTransaction t × (get_size_of_txsbin t ≤ length bin)
unfolding bin_to_txs get_size_of_txsbin
bin_to_txs-IsTransaction bin t h fits e =
    let ((total, bin1), e1, k1) = >>=-eq-some (fetch_ull bin) _ e in
    let f1 = fetch_ull-FetchedUll bin total bin1 h e1 in
    let ((sender_size, bin2), e2, k2) = >>=-eq-some (fetch_ull bin1) _ k1 in
    let f2 = fetch_ull-FetchedUll bin1 sender_size bin2 f1.rest_bytes e2 in
    let ((sender, bin3), e3, k3) = >>=-eq-some (fetch sender_size bin2) _ k2 in
    let f3 = fetch-Fetched sender_size bin2 sender bin3 f2.rest_bytes e3 in
    let ((receiver_size, bin4), e4, k4) = >>=-eq-some (fetch_ull bin3) _ k3 in
    let f4 = fetch_ull-FetchedUll bin3 receiver_size bin4 f3.rest_bytes e4 in
    let ((receiver, bin5), e5, k5) = >>=-eq-some (fetch receiver_size bin4) _ k4 in
    let f5 = fetch-Fetched receiver_size bin4 receiver bin5 f4.rest_bytes e5 in
    let ((amount, bin6), e6, k6) = >>=-eq-some (fetch_ull bin5) _ k5 in
    let f6 = fetch_ull-FetchedUll bin5 amount bin6 f5.rest_bytes e6 in
    let ((time, bin7), e7, k7) = >>=-eq-some (fetch_ull bin6) _ k6 in
    let f7 = fetch_ull-FetchedUll bin6 time bin7 f6.rest_bytes e7 in
    let ls = length-until_nul sender in
    let lr = length-until_nul receiver in
    along
      (λ (u : Transaction).
        IsTransaction u × (length u.sender + length u.receiver + 8 * 2 + (8 + 8) + 8 ≤ length bin))
      k7
      (
        record {
          sender = until_nul-IsText sender f3.front_bytes;
          receiver = until_nul-IsText receiver f5.front_bytes;
          sender_size = omega (arith, f2.ull, f3.size);
          receiver_size = omega (arith, f4.ull, f5.size);
          amount = f6.ull;
          time = f7.ull;
          total = omega (
            arith, f1.left, f2.left, f3.left, f3.size, f4.left, f5.left, f5.size, f6.left, f7.left,
          );
        },
        omega (
          arith, f1.left, f2.left, f3.left, f3.size, f4.left, f5.left, f5.size, f6.left, f7.left,
        ),
      )
