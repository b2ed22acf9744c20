-- ===== src/Mining/Candidate.antt =====
-- One candidate: the text that is hashed, and the buffer of `testproof`.
use tek.Prelude.{
  ℕ, ◌+◌, ◌*◌, ◌≤◌, ◌<◌, ◌≡◌, ap, none, some, List, [], ◌∷◌, ◌++◌, append_assoc, arith, length,
  length-append, length-replicate, replicate, drop, All-append,
}
use tek.Bytes.{IsText, IsUll, block, decimal, until_nul, write_at}
use tek.Bytes.Text.{until_nul-append}
use tek.Bytes.Buffer.{write_at_start, write_at_overflow}
use tek.Hash.{Sha, sha256}
use tek.Mining.{len_of_proof, misses, hash_candidate, try_proof, testproof}
use tek.Mining.Digits.{decimal-IsText, length-decimal, len_of_proof_near}

-- The text of a candidate: the proof in decimal, then the sum.
abbrev pub candidate : List ℕ → ℕ → List ℕ
candidate sum proof = decimal proof ++ sum

module _ (sha : Sha) (sum : List ℕ) (text : IsText sum) (proof : ℕ) where
  -- With room for the candidate and its NUL, `sprintf` stays in the buffer and the hash is that
  -- of the candidate.
  pub hash_candidate-digest :
      (size : ℕ)
      → length (candidate sum proof) < size
      → hash_candidate sha size sum proof ≡ some (sha.digest (candidate sum proof))
  unfolding hash_candidate sha256
  hash_candidate-digest size room =
      let c = candidate sum proof in
      let fits : length (block c) ≤ length (replicate size 0) =
        omega (arith, length-append c (0 ∷ []), length-replicate {A = ℕ} size 0) in
      let whole : IsText c = All-append _ (decimal proof) sum (decimal-IsText proof) text in
      let rest = drop (length (block c)) (replicate size 0) in
      let cut : until_nul (block c ++ rest) ≡ c =
        rw (append_assoc c (0 ∷ []) rest) (until_nul-append c rest whole) in
      let written : write_at 0 (block c) (replicate size 0) ≡ some (block c ++ rest) =
        write_at_start (block c) (replicate size 0) fits in
      rw written (ap (λ s. some (sha.digest s)) cut)

  -- Without, `sprintf` writes past the end of the buffer.
  pub hash_candidate_overflow :
      (size : ℕ) → size ≤ length (candidate sum proof) → hash_candidate sha size sum proof ≡ none
  unfolding hash_candidate
  hash_candidate_overflow size small =
      let c = candidate sum proof in
      let past : length (replicate size 0) < 0 + length (block c) =
        omega (arith, length-append c (0 ∷ []), length-replicate {A = ℕ} size 0) in
      let refused : write_at 0 (block c) (replicate size 0) ≡ none =
        write_at_overflow 0 (block c) (replicate size 0) past in
      rw refused

  module _ (diff : ℕ) where
    pub try_proof-misses :
        length sum ≤ 235
        → try_proof sha diff sum proof ≡ misses diff (sha.digest (candidate sum proof))
    unfolding try_proof
    try_proof-misses short =
        let room : length (candidate sum proof) < 256 =
          omega (arith, length-append (decimal proof) sum, length-decimal proof) in
        rw (hash_candidate-digest 256 room)

    -- A stack slot of 11 more bytes is what `testproof` needs for the sum of a block, and 12 for
    -- the proof 0, which `len_of_proof` counts as no character.
    pub testproof-misses :
        (slack : ℕ)
        → IsUll proof
        → length sum ≤ 127 + slack
        → testproof sha slack diff sum proof ≡ misses diff (sha.digest (candidate sum proof))
    unfolding testproof
    testproof-misses slack ull short =
        let room : length (candidate sum proof) < 4 * 32 + len_of_proof proof + 1 + slack =
          omega (arith, length-append (decimal proof) sum, len_of_proof_near proof ull) in
        rw (hash_candidate-digest (4 * 32 + len_of_proof proof + 1 + slack) room)

    -- For a sum of 139 characters, as the program mines, and a 64-bit proof, `testproof` writes
    -- outside its array unless 11 bytes of slack follow it.
    pub testproof_overflow :
        (slack : ℕ)
        → IsUll proof
        → length sum ≡ 139
        → slack ≤ 10
        → testproof sha slack diff sum proof ≡ none
    unfolding testproof
    testproof_overflow slack ull long tight =
        let past : 4 * 32 + len_of_proof proof + 1 + slack ≤ length (candidate sum proof) =
          omega (arith, length-append (decimal proof) sum, len_of_proof_near proof ull) in
        rw (hash_candidate_overflow (4 * 32 + len_of_proof proof + 1 + slack) past)
