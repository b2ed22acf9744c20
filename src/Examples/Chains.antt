-- ===== src/Examples/Chains.antt =====
-- Chains, balances and mining, on the data.
use tek.Prelude.{
  ℕ, zero, suc, ◌≡◌, ◌↔◌, refl, drop, Bool, true, false, some, List, [], ◌∷◌, arith, if◌then◌else◌,
}
use tek.Bytes.{IsByte, IsText, IsUll, decimal}
use tek.Hash.{sha256_to_ascii}
use tek.Mining.Zeros.{Zeros}
use tek.Mining.{testproof}
use tek.Mining.Threads.{
  Mine, Thread, testing, hashing, returned, created, update, thread_mining, mine_from_string,
}
use tek.Mining.Threads.Race.{AllReturned}
use tek.Mining.Threads.Result.{mine_from_string-accepts}
use tek.Block.{Block}
use tek.Block.Seal.{seal, seal-Zeros, sum_text}
use tek.Blockchain.{add_block, amount_money, check_blockchain}
use tek.Blockchain.Chain.{IsChained, follows, check_blockchain-IsChained, add_block-follows}
use tek.Blockchain.Genesis.{unsealed}
use tek.Blockchain.Money.{balance, amount_money-balance}
use tek.Node.Invariant.{IsMined-IsSealed}
use tek.Examples.Data.{
  alice, alice-IsText, first_money-IsTransaction, payment-IsTransaction, genesis, second,
  money-AllPrint, short_chain, long_chain, sha0, zero-IsHash, second-IsMined,
}

check_blockchain-IsChained_example :
    (bad : Bool) × (check_blockchain sha0 long_chain ≡ some bad)
    × ((bad ≡ false) ↔ IsChained sha0 (genesis ∷ second ∷ []))
check_blockchain-IsChained_example =
    check_blockchain-IsChained sha0 long_chain
      (zero-IsHash, (IsMined-IsSealed second second-IsMined, tt))

add_block-follows_example :
    add_block sha0 short_chain second
    ≡ some (if follows sha0 genesis second then (true, long_chain) else (false, short_chain))
add_block-follows_example =
    add_block-follows sha0 genesis [] second zero-IsHash (IsMined-IsSealed second second-IsMined)

-- The one thread has found its proof at once.
abbrev pub mined : Mine
mined = record {
  ismining = true;
  thread =
      update
        (update (update created.thread 0 (record { proof = 0; res = true; phase = hashing })) 0
          (record { proof = 0; res = false; phase = testing }))
        0 (record { proof = 0; res = false; phase = returned });
}

pub all_returned : (sum : List ℕ) → AllReturned sha0 4 sum 1 mined
all_returned sum zero h = refl
all_returned sum (suc i) h = absurd (omega arith)

mine_from_string-accepts_example :
    (p : ℕ) × (mine_from_string sha0 4 (b'x' ∷ []) 1 0 mined ≡ some p)
    × (testproof sha0 0 4 (b'x' ∷ []) p ≡ some false)
    × IsUll p
unfolding thread_mining tek.Mining.Threads.advance tek.Mining.Threads.finish_round
    tek.Mining.try_proof tek.Mining.hash_candidate tek.Mining.misses tek.Mining.any_nonzero
    tek.Mining.half_nonzero tek.Bytes.write_at tek.Hash.sha256 tek.Bytes.until_nul decimal
    tek.Bytes.decimal_loop
mine_from_string-accepts_example =
    mine_from_string-accepts sha0 4 (b'x' ∷ []) 1 0 (0 ∷ 0 ∷ 0 ∷ []) (omega arith) (omega arith)
      (omega arith) ((omega arith, omega arith), tt) (omega arith) (omega arith) refl
      (all_returned (b'x' ∷ []))

abbrev pub junk : Block
junk = genesis

abbrev pub genesis_sum : List ℕ
genesis_sum = sum_text sha0 (unsealed 9 junk)

seal-Zeros_example :
    (b : Block) × (seal sha0 genesis 17 ≡ some b) × Zeros (drop 60 (sha256_to_ascii b.block_hash))
unfolding tek.Mining.try_proof tek.Mining.hash_candidate tek.Mining.misses tek.Mining.any_nonzero
    tek.Mining.half_nonzero tek.Bytes.write_at tek.Hash.sha256 tek.Bytes.until_nul decimal
    tek.Bytes.decimal_loop sha256_to_ascii tek.Hash.hex_digit tek.Block.HashText.merkle_hash
    tek.Transaction.Printed.list_text tek.Bytes.zero_pad
seal-Zeros_example =
    seal-Zeros sha0 genesis zero-IsHash (omega arith) money-AllPrint 4 17 (omega arith)
      (omega arith) (omega arith) refl

amount_money-balance_example : amount_money alice long_chain ≡ some (balance alice long_chain)
amount_money-balance_example =
    amount_money-balance alice alice-IsText long_chain
      ((first_money-IsTransaction, tt), ((payment-IsTransaction, tt), tt))
