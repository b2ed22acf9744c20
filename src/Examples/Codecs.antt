-- ===== src/Examples/Codecs.antt =====
-- The formats, on the data.
use tek.Prelude.{
  ℕ, zero, suc, ◌≡◌, ◌↔◌, refl, false, none, some, [], ◌∷◌, ◌++◌, arith, replicate, drop,
}
use tek.Bytes.{IsText}
use tek.Hash.{sha256_to_ascii}
use tek.Mining.{len_of_proof, misses, testproof}
use tek.Mining.Candidate.{testproof_overflow}
use tek.Mining.Zeros.{Zeros, misses-Zeros}
use tek.Block.{get_hash_in, hash_buffer_size}
use tek.Block.HashText.{get_hash_in-text, hash_text}
use tek.Blockchain.{Blockchain, bin_to_blockchain, blockchain_to_bin}
use tek.Blockchain.Binary.{SameBlocks, bin_to_blockchain-blockchain_to_bin}
use tek.Examples.Data.{
  long_chain, genesis-IsReceived, second-IsReceived, second, sha0, zero-IsHash, payment-AllPrint,
}

bin_to_blockchain-blockchain_to_bin_example :
    (bc' : Blockchain) × (bin_to_blockchain (blockchain_to_bin long_chain ++ 5 ∷ []) ≡ some bc')
    × SameBlocks long_chain.blocks bc'.blocks
bin_to_blockchain-blockchain_to_bin_example =
    bin_to_blockchain-blockchain_to_bin long_chain
      (genesis-IsReceived.block, (second-IsReceived.block, tt)) (omega arith) (5 ∷ [])

misses-Zeros_example :
    (misses 5 (replicate 32 0) ≡ some false) ↔ Zeros (drop 59 (sha256_to_ascii (replicate 32 0)))
misses-Zeros_example = misses-Zeros 5 (replicate 32 0) zero-IsHash (omega arith)

letters-IsText : (n : ℕ) → IsText (replicate n b'a')
letters-IsText zero = tt
letters-IsText (suc n) = ((omega arith, omega arith), letters-IsText n)

testproof_overflow_example : testproof sha0 10 4 (replicate 139 b'a') 7 ≡ none
testproof_overflow_example =
    testproof_overflow sha0 (replicate 139 b'a') (letters-IsText 139) 7 4 10 (omega arith) refl
      (omega arith)

get_hash_in-text_example :
    get_hash_in sha0 (replicate (hash_buffer_size second) 9) second
    ≡ some (sha0.digest (hash_text sha0 second))
unfolding len_of_proof tek.Mining.len_loop
get_hash_in-text_example =
    get_hash_in-text sha0 second
      (record { previus = zero-IsHash; proof = omega arith; printed = payment-AllPrint })
      (replicate (hash_buffer_size second) 9) refl
