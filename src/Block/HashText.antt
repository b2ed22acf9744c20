-- ===== src/Block/HashText.antt =====
-- The text that `getHash` hashes.
use mathlib.Core.Path.{subst}
use tek.Prelude.{
  ℕ, zero, suc, ◌-◌, ◌≤◌, ◌≡◌, ap, ◌∙◌, sym, false, Option, some, List, [], ◌∷◌, ◌++◌, append_assoc,
  arith, ◌>>=◌, length, length-append, take, drop, All-append, ◌==◌, if◌then◌else◌,
  length-replicate, replicate, length-take, take-append-drop, Bool-cases, inl, inr,
}
use tek.Bytes.{IsText, IsUll, block, decimal, until_nul, zero_pad}
use tek.Bytes.Text.{until_nul-append}
use tek.Hash.{Sha, IsHash, digest-IsHash, sha256, sha256_to_ascii}
use tek.Hash.Ascii.{length-sha256_to_ascii, sha256_to_ascii-IsText}
use tek.Mining.{len_of_proof}
use tek.Mining.Digits.{decimal-IsText, length-decimal, len_of_proof-decimal, len_of_proof-zero}
use tek.Transaction.Printed.{AllPrint, list_text, tl_to_string-text}
use tek.Block.{Block, get_merkle_hash, hash_buffer, hash_buffer_size, get_hash_in, get_hash}
use tek.Block.Writes.{written, Written, five_writes}

-- The time as `%011llu` prints it; only 11 characters of it survive.
abbrev pub time_text : ℕ → List ℕ
time_text time = take 11 (zero_pad 11 (decimal time))

-- The proof as it reaches the hash: of the proof 0 nothing is left.
abbrev pub proof_text : ℕ → List ℕ
proof_text proof = if proof == 0 then [] else decimal proof

unfoldable pub merkle_hash : Sha → Block → List ℕ
unfolding sha256
merkle_hash sha b = sha256 sha (list_text b.tl.transactions)

abbrev pub hash_text : Sha → Block → List ℕ
hash_text sha b =
    proof_text b.proof
    ++ (time_text b.time ++ (sha256_to_ascii b.previus_hash ++ sha256_to_ascii (merkle_hash sha b)))

-- What `sprintf` prints of the proof, in front of what stays of it.
proof_over : ℕ → List ℕ
proof_over proof = if proof == 0 then block (decimal proof) else 0 ∷ []

proof_split : (proof : ℕ) → block (decimal proof) ≡ proof_text proof ++ proof_over proof
unfolding proof_over
proof_split proof = elim (Bool-cases (proof == 0)) [ inl e ↦ rw e | inr e ↦ rw e ]

length-proof_text : (proof : ℕ) → IsUll proof → len_of_proof proof ≡ length (proof_text proof)
length-proof_text zero h = len_of_proof-zero
length-proof_text (suc n) h =
    let e : (suc n == 0) ≡ false = ground arith in
    rw e (sym (len_of_proof-decimal (suc n) (omega arith) h))

length-proof_over : (proof : ℕ) → length (proof_text proof ++ proof_over proof) ≤ 21
length-proof_over proof =
    rw (← proof_split proof)
      (omega (arith, length-append (decimal proof) (0 ∷ []), length-decimal proof))

time_split :
    (time : ℕ)
    → block (zero_pad 11 (decimal time))
      ≡ time_text time ++ (drop 11 (zero_pad 11 (decimal time)) ++ 0 ∷ [])
time_split time =
    ap block (sym (take-append-drop 11 (zero_pad 11 (decimal time))))
    ∙ append_assoc (time_text time) _ (0 ∷ [])

length-zero_pad :
    (time : ℕ)
    → (11 ≤ length (zero_pad 11 (decimal time))) × (length (zero_pad 11 (decimal time)) ≤ 20)
length-zero_pad time =
    unfold zero_pad in
    omega (
      arith,
      length-append (replicate (11 - length (decimal time)) b'0') (decimal time),
      length-replicate {A = ℕ} (11 - length (decimal time)) b'0',
      length-decimal time,
    )

length-time_text : (time : ℕ) → length (time_text time) ≡ 11
length-time_text time =
    omega (arith, length-zero_pad time, length-take 11 (zero_pad 11 (decimal time)))

length-time_over :
    (time : ℕ) → length (time_text time ++ (drop 11 (zero_pad 11 (decimal time)) ++ 0 ∷ [])) ≤ 21
length-time_over time =
    rw (← time_split time)
      (omega (arith, length-append (zero_pad 11 (decimal time)) (0 ∷ []), length-zero_pad time))

pub get_merkle_hash-text :
    (sha : Sha) (b : Block)
    → AllPrint b.tl.transactions
    → get_merkle_hash sha b ≡ some (merkle_hash sha b)
unfolding get_merkle_hash merkle_hash
get_merkle_hash-text sha b printed = rw (tl_to_string-text b.tl printed)

-- The array of a hash, as `getHash` needs it.
pub record IsHashed (b : Block) : Type 0 where
  pub previus : IsHash b.previus_hash
  pub proof : IsUll b.proof
  pub printed : AllPrint b.tl.transactions

module _ (sha : Sha) (b : Block) (ok : IsHashed b) where
  merkle-IsHash : IsHash (merkle_hash sha b)
  merkle-IsHash = unfold merkle_hash sha256 in digest-IsHash sha _

  -- The writes stay inside the buffer, whatever it held, and leave the text and its NUL there.
  hash_buffer-text :
      (stack : List ℕ)
      → length stack ≡ hash_buffer_size b
      → Written (hash_buffer_size b) (block (hash_text sha b)) (hash_buffer sha b stack)
  unfolding hash_buffer
  hash_buffer-text stack size =
      let h = sha256_to_ascii b.previus_hash in
      let m = sha256_to_ascii (merkle_hash sha b) in
      let lh : length h ≡ 64 =
        omega (arith, length-sha256_to_ascii b.previus_hash, ok.previus.size) in
      let lm : length m ≡ 64 =
        omega (arith, length-sha256_to_ascii (merkle_hash sha b), merkle-IsHash.size) in
      let regroup : ((proof_text b.proof ++ time_text b.time) ++ h) ++ m ≡ hash_text sha b =
        simp append_assoc in
      subst (λ l. Written (hash_buffer_size b) (block l) (hash_buffer sha b stack)) regroup
        (rw (get_merkle_hash-text sha b ok.printed, proof_split b.proof, time_split b.time)
          (five_writes (hash_buffer_size b) (len_of_proof b.proof) (proof_text b.proof)
            (proof_over b.proof) (time_text b.time)
            (drop 11 (zero_pad 11 (decimal b.time)) ++ 0 ∷ []) h m
            (length-proof_text b.proof ok.proof) (length-time_text b.time) lh lm (omega arith)
            (length-proof_over b.proof) (length-time_over b.time) stack size))

  All-take : (n : ℕ) (l : List ℕ) → IsText l → IsText (take n l)
  All-take zero l h = tt
  All-take (suc n) [] h = tt
  All-take (suc n) (x ∷ l) h = (h.0, All-take n l h.1)

  zeros-IsText : (n : ℕ) → IsText (replicate n b'0')
  zeros-IsText zero = tt
  zeros-IsText (suc n) = (omega arith, zeros-IsText n)

  time-IsText : (time : ℕ) → IsText (time_text time)
  time-IsText time =
      unfold zero_pad in
      All-take 11 _ (All-append _ _ (decimal time) (zeros-IsText _) (decimal-IsText time))

  proof-IsText : (proof : ℕ) → IsText (proof_text proof)
  proof-IsText proof = elim (Bool-cases (proof == 0)) [
    | inl e ↦ rw e tt
    | inr e ↦ rw e (decimal-IsText proof)
  ]

  hash_text-IsText : IsText (hash_text sha b)
  hash_text-IsText = All-append _ (proof_text b.proof) _ (proof-IsText b.proof) (
      All-append _ (time_text b.time) _ (time-IsText b.time) (
        All-append _ (sha256_to_ascii b.previus_hash) _
          (sha256_to_ascii-IsText b.previus_hash ok.previus.bytes)
          (sha256_to_ascii-IsText _ merkle-IsHash.bytes)))

  Written-hash :
      {n : ℕ} {run : Option (List ℕ)}
      → Written n (block (hash_text sha b)) run
      → (run >>= λ buf. some (sha256 sha buf)) ≡ some (sha.digest (hash_text sha b))
  unfolding sha256
  Written-hash (written w) =
      let cut = append_assoc (hash_text sha b) (0 ∷ []) w.tail in
      ap (λ s. some (sha.digest s))
        (ap until_nul (w.whole ∙ cut) ∙ until_nul-append (hash_text sha b) w.tail hash_text-IsText)

  -- For a block with a 32-byte previous hash, a 64-bit proof and transactions that fit the buffers
  -- of `txsToString`, `getHash` stays inside its buffer, and whatever the stack held there, the
  -- result is the hash of the text: the proof (nothing for 0), 11 characters of time, and the two
  -- hashes in hexadecimal.
  pub get_hash_in-text :
      (stack : List ℕ)
      → length stack ≡ hash_buffer_size b
      → get_hash_in sha stack b ≡ some (sha.digest (hash_text sha b))
  unfolding get_hash_in
  get_hash_in-text stack size = Written-hash (hash_buffer-text stack size)

  pub get_hash-text : get_hash sha b ≡ some (sha.digest (hash_text sha b))
  unfolding get_hash
  get_hash-text = get_hash_in-text _ (length-replicate {A = ℕ} (hash_buffer_size b) 0)
