-- ===== src/Block/Seal.antt =====
-- How a block gets its proof and its hash: the steps that `createGenesis`
-- (Projet/Block/blockchain.c) and `mining` (Projet/Noeud_de_gestion/gestion.c) have in common.
use tek.Prelude.{
  ℕ, zero, suc, ◌+◌, ◌-◌, take_all, ◌*◌, ◌^◌, ◌≤◌, ◌<◌, ◌≡◌, refl, ap, ◌∙◌, sym, false, Option,
  some, List, [], ◌∷◌, ◌++◌, append_assoc, arith, ◌>>=◌, length, length-append, drop, All-append,
  length-replicate, replicate, ◌==◌,
}
use tek.Bytes.{IsText, IsUll, block, decimal, until_nul, write_at, zero_pad}
use tek.Bytes.Buffer.{write_at_start}
use tek.Bytes.Text.{until_nul-append}
use tek.Hash.{Sha, IsHash, digest-IsHash, sha256, sha256_to_ascii, sha256_block_size}
use tek.Hash.Ascii.{length-sha256_to_ascii, sha256_to_ascii-IsText}
use tek.Mining.{try_proof}
use tek.Mining.Candidate.{candidate, try_proof-misses}
use tek.Mining.Digits.{decimal-IsText, decimal_fits}
use tek.Mining.Zeros.{Zeros, misses-Zeros}
use tek.Block.{Block, get_merkle_hash, get_hash}
use tek.Transaction.Printed.{AllPrint}
use tek.Block.HashText.{merkle_hash, get_merkle_hash-text, hash_text, get_hash-text, time_text}

-- `sprintf(sum, …, prev_hash, merkle_hash)`, with `time` as the format prints it, and what
-- `mine_from_string` then reads of `sum`.
unfoldable pub sum_of : Sha → Block → (time : List ℕ) → Option (List ℕ)
unfolding get_merkle_hash
sum_of sha b time = do
  merkle ← get_merkle_hash sha b
  let text = time ++ (sha256_to_ascii b.previus_hash ++ sha256_to_ascii merkle)
  sum ← write_at 0 (block text) (replicate (4 * sha256_block_size + 11 + 1) 0)
  some (until_nul sum)

-- `proof` is stored, and the hash of the block in it.
unfoldable pub seal : Sha → Block → ℕ → Option Block
seal sha b proof = do
  hash ← get_hash sha (record b { proof = proof })
  some (record b { proof = proof; block_hash = hash })

-- The text without the proof.
abbrev pub sum_text : Sha → Block → List ℕ
sum_text sha b =
    zero_pad 11 (decimal b.time)
    ++ (sha256_to_ascii b.previus_hash ++ sha256_to_ascii (merkle_hash sha b))

module _ (sha : Sha) (b : Block) (previus : IsHash b.previus_hash) (soon : b.time < 10 ^ 11)
    (printed : AllPrint b.tl.transactions) where
  merkle-IsHash : IsHash (merkle_hash sha b)
  merkle-IsHash = unfold merkle_hash sha256 in digest-IsHash sha _

  length-padded : length (zero_pad 11 (decimal b.time)) ≡ 11
  length-padded =
      unfold zero_pad in
      omega (
        arith,
        length-append (replicate (11 - length (decimal b.time)) b'0') (decimal b.time),
        length-replicate {A = ℕ} (11 - length (decimal b.time)) b'0',
        decimal_fits 10 b.time soon,
      )

  pub length-sum_text : length (sum_text sha b) ≡ 139
  length-sum_text = omega (
    arith,
    length-padded,
    length-append (zero_pad 11 (decimal b.time))
        (sha256_to_ascii b.previus_hash ++ sha256_to_ascii (merkle_hash sha b)),
    length-append (sha256_to_ascii b.previus_hash) (sha256_to_ascii (merkle_hash sha b)),
    length-sha256_to_ascii b.previus_hash,
    length-sha256_to_ascii (merkle_hash sha b),
    previus.size,
    merkle-IsHash.size,
  )

  zeros-IsText : (n : ℕ) → IsText (replicate n b'0')
  zeros-IsText zero = tt
  zeros-IsText (suc n) = (omega arith, zeros-IsText n)

  pub sum_text-IsText : IsText (sum_text sha b)
  sum_text-IsText =
      unfold zero_pad in
      All-append _ (zero_pad 11 (decimal b.time)) _
        (All-append _ (replicate (11 - length (decimal b.time)) b'0') _ (zeros-IsText _)
          (decimal-IsText b.time))
        (All-append _ (sha256_to_ascii b.previus_hash) _
          (sha256_to_ascii-IsText b.previus_hash previus.bytes)
          (sha256_to_ascii-IsText _ merkle-IsHash.bytes))

  -- The text fills the buffer to its last byte, and no further.
  pub sum_of-text : sum_of sha b (zero_pad 11 (decimal b.time)) ≡ some (sum_text sha b)
  unfolding sum_of
  sum_of-text =
      let s = sum_text sha b in
      let l = length-append s (0 ∷ []) in
      let fits : length (block s) ≤ length (replicate {A = ℕ} 140 0) =
        omega (arith, length-sum_text, l, length-replicate {A = ℕ} 140 0) in
      let rest = drop (length (block s)) (replicate 140 0) in
      let cut : until_nul (block s ++ rest) ≡ s =
        rw (append_assoc s (0 ∷ []) rest) (until_nul-append s rest sum_text-IsText) in
      rw (get_merkle_hash-text sha b printed, write_at_start (block s) (replicate 140 0) fits)
        (ap some cut)

  -- `getHash` hashes the proof and the text, unless the proof is 0.
  hash_text-candidate :
      (proof : ℕ)
      → (proof == 0) ≡ false
      → hash_text sha (record b { proof = proof }) ≡ candidate (sum_text sha b) proof
  unfolding merkle_hash
  hash_text-candidate proof e =
      let t : time_text b.time ≡ zero_pad 11 (decimal b.time) =
        take_all 11 (zero_pad 11 (decimal b.time)) (omega (arith, length-padded)) in
      rw (e, t) refl

  pub seal-hash :
      (proof : ℕ)
      → IsUll proof
      → seal sha b proof
        ≡ some (record b {
          proof = proof;
          block_hash = sha.digest (hash_text sha (record b { proof = proof }));
        })
  unfolding seal
  seal-hash proof ull = rw (
      get_hash-text sha (record b { proof = proof })
        (record { previus = previus; proof = ull; printed = printed }))

  -- For a block with a 32-byte previous hash, a time below 10 ^ 11 and transactions that fit the
  -- buffers of `txsToString`, and a difficulty up to 64: a 64-bit proof other than 0, with which a
  -- round of `thread_mining` on the text of the block succeeds, gives a block whose hash ends in `diff`
  -- hexadecimal zeros.
  pub seal-Zeros :
      (diff proof : ℕ)
      → IsUll proof
      → 0 < proof
      → diff ≤ 64
      → try_proof sha diff (sum_text sha b) proof ≡ some false
      → (b' : Block) × (seal sha b proof ≡ some b')
        × Zeros (drop (64 - diff) (sha256_to_ascii b'.block_hash))
  seal-Zeros diff proof ull pos easy found =
      let s = sum_text sha b in
      let same = hash_text-candidate proof (ground arith) in
      let tried =
        try_proof-misses sha s sum_text-IsText proof diff (omega (arith, length-sum_text)) in
      (
        _,
        seal-hash proof ull,
        rw same (
            (misses-Zeros diff (sha.digest (candidate s proof)) (digest-IsHash sha _) easy).0
              (sym tried ∙ found)),
      )
