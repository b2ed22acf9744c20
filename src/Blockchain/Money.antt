-- ===== src/Blockchain/Money.antt =====
-- `amountMoney` and `enoughMoney`.
use tek.Prelude.{
  ℕ, ◌+◌, ◌-◌, ◌%◌, ◌^◌, ◌≤◌, ◌<◌, ◌≡◌, refl, ap, ◌∙◌, true, false, not, some, List, [], ◌∷◌, ◌++◌,
  arith, ltb, if◌then◌else◌, All,
}
use tek.Bytes.{IsText, IsUll}
use tek.Bytes.Text.{is_prefix, is_prefix-append, memcmp-prefix}
use tek.Transaction.{Transaction}
use tek.Transaction.Binary.{IsTransaction}
use tek.Block.{Block}
use tek.Blockchain.{Blockchain, amount_in, amount_blocks, amount_money, enough_money}

-- What the transactions take from, and give to, the accounts whose names begin with `address`.
unfoldable pub sent : List ℕ → List Transaction → ℕ
sent address [] = 0
sent address (t ∷ ts) = (if is_prefix address t.sender then t.amount else 0) + sent address ts

unfoldable pub received : List ℕ → List Transaction → ℕ
received address [] = 0
received address (t ∷ ts) =
    (if is_prefix address t.receiver then t.amount else 0) + received address ts

unfoldable pub all_sent : List ℕ → List Block → ℕ
unfolding sent
all_sent address [] = 0
all_sent address (b ∷ bs) = sent address b.tl.transactions + all_sent address bs

unfoldable pub all_received : List ℕ → List Block → ℕ
unfolding received
all_received address [] = 0
all_received address (b ∷ bs) = received address b.tl.transactions + all_received address bs

-- Received less sent, modulo 2 ^ 64.
unfoldable pub balance : List ℕ → Blockchain → ℕ
unfolding all_sent all_received
balance address bc =
    (all_received address bc.blocks + 2 ^ 64 - all_sent address bc.blocks % 2 ^ 64) % 2 ^ 64

-- `m` becomes `m'` by taking `s` and giving `r`.
record Moves (m s r m' : ℕ) : Type 0 where
  ull : m' < 2 ^ 64
  sum : (m' + s) % 2 ^ 64 ≡ (m + r) % 2 ^ 64

module _ (address : List ℕ) (text : IsText address) where
  amount_in-Moves :
      (m : ℕ) (ts : List Transaction)
      → IsUll m
      → All IsTransaction ts
      → (m' : ℕ) × (amount_in address m ts ≡ some m')
        × Moves m (sent address ts) (received address ts) m'
  unfolding amount_in sent received
  amount_in-Moves m [] hm ok = (m, refl, record { ull = hm; sum = refl })
  amount_in-Moves m (t ∷ ts) hm ok =
      let m1 = if is_prefix address t.sender then (m + 2 ^ 64 - t.amount) % 2 ^ 64 else m in
      let m2 = if is_prefix address t.receiver then (m1 + t.amount) % 2 ^ 64 else m1 in
      let small : IsUll m2 = ground arith in
      let (m', run, moves) = amount_in-Moves m2 ts small ok.1 in
      (
        m',
        rw
            (
              memcmp-prefix address t.sender text ok.0.sender,
              memcmp-prefix address t.receiver text ok.0.receiver,
            )
            run,
        record { ull = moves.ull; sum = ground (arith, moves.sum, ok.0.amount) },
      )

  amount_blocks-Moves :
      (m : ℕ) (bs : List Block)
      → IsUll m
      → All (λ b. All IsTransaction b.tl.transactions) bs
      → (m' : ℕ) × (amount_blocks address m bs ≡ some m')
        × Moves m (all_sent address bs) (all_received address bs) m'
  unfolding amount_blocks all_sent all_received
  amount_blocks-Moves m [] hm ok = (m, refl, record { ull = hm; sum = refl })
  amount_blocks-Moves m (b ∷ bs) hm ok =
      let (m1, run, moves) = amount_in-Moves m b.tl.transactions hm ok.0 in
      let (m2, run2, moves2) = amount_blocks-Moves m1 bs moves.ull ok.1 in
      (m2, rw run run2, record { ull = moves2.ull; sum = omega (arith, moves.sum, moves2.sum) })

  -- For an address that is a string, on well-formed transactions, and where `memcmp` reads no further
  -- than the first difference: `amountMoney` is what the accounts whose names begin with the address
  -- received less what they sent, modulo 2 ^ 64.
  pub amount_money-balance :
      (bc : Blockchain)
      → All (λ b. All IsTransaction b.tl.transactions) bc.blocks
      → amount_money address bc ≡ some (balance address bc)
  unfolding amount_money balance
  amount_money-balance bc ok =
      let (m, run, moves) = amount_blocks-Moves 0 bc.blocks (omega arith) ok in
      run ∙ ap some (omega (arith, moves.ull, moves.sum))

  pub enough_money-balance :
      (amount : ℕ) (bc : Blockchain)
      → All (λ b. All IsTransaction b.tl.transactions) bc.blocks
      → enough_money address amount bc ≡ some (not (ltb (balance address bc) amount))
  unfolding enough_money
  enough_money-balance amount bc ok = rw (amount_money-balance bc ok)

-- With no more sent than received, and less than 2 ^ 64 received, nothing wraps.
pub balance_exact :
    (address : List ℕ) (bc : Blockchain)
    → all_sent address bc.blocks ≤ all_received address bc.blocks
    → all_received address bc.blocks < 2 ^ 64
    → balance address bc + all_sent address bc.blocks ≡ all_received address bc.blocks
unfolding balance
balance_exact address bc le small = omega arith

-- `amountMoney` stops comparing at the end of the address: on a block whose one well-formed
-- transaction goes to an account whose longer name begins with the address, from a sender whose
-- name does not, it credits the address with the amount.
pub amount_money-prefix :
    (address more : List ℕ) (b : Block) (t : Transaction)
    → IsText address
    → IsTransaction t
    → t.receiver ≡ address ++ more
    → is_prefix address t.sender ≡ false
    → b.tl.transactions ≡ t ∷ []
    → amount_money address (record { blocks = b ∷ [] }) ≡ some t.amount
unfolding balance
amount_money-prefix address more b t text ok to from only =
    let bc : Blockchain = record { blocks = b ∷ [] } in
    let all : All (λ (c : Block). All IsTransaction c.tl.transactions) bc.blocks =
      (rw only (ok, tt), tt) in
    let credited : is_prefix address t.receiver ≡ true = rw to (is_prefix-append address more) in
    amount_money-balance address text bc all
    ∙ ap some (rw (only, from, credited) (omega (arith, ok.amount)))
