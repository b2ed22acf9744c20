-- ===== src/Blockchain/Chain.antt =====
-- `checkBlockchain` decides whether a list of blocks is a chain, and `addBlock` keeps chains.
use tek.Prelude.{
  ℕ, >>=-eq-some, replicate, suc, ◌-◌, ◌≤◌, ◌≡◌, refl, ◌∙◌, sym, ◌↔◌, Bool, true, false, some, List,
  [], ◌∷◌, ◌++◌, arith, length, length-append, get_elem?, ◌==◌, if◌then◌else◌, All, Bool-cases, inl,
  inr, along,
}
use tek.Bytes.{time_lt}
use tek.Bytes.Text.{text_eq, text_eq_comm, text_eq→eq, text_eq_iff, memcmp-array}
use tek.Hash.{Sha, IsHash}
use tek.Transaction.{tl_to_string}
use tek.Transaction.Printed.{AllPrint, tl_to_string-AllPrint}
use tek.Block.{hash_buffer, hash_buffer_size, get_merkle_hash, Block, get_hash}
use tek.Block.HashText.{IsHashed, hash_text, get_hash-text}
use tek.Blockchain.{
  Blockchain, blocks_number, get_last_block, add_block, check_from, check_blocks, check_blockchain,
}

-- The arrays of a block hold 32 bytes each.
pub record IsSealed (b : Block) : Type 0 where
  pub hashed : IsHashed b
  pub block_hash : IsHash b.block_hash

-- All blocks but the first can be hashed, and the hash of the first can be compared.
abbrev pub IsCheckable : List Block → Type 0
IsCheckable [] = Unit {0}
IsCheckable (b ∷ bs) = IsHash b.block_hash × All IsSealed bs

-- `b` may stand behind `prev`: it is not older, names the hash of `prev`, and carries its own.
pub record Follows (sha : Sha) (prev b : Block) : Type 0 where
  pub in_time : time_lt b.time prev.time ≡ false
  pub linked : b.previus_hash ≡ prev.block_hash
  pub sealed : sha.digest (hash_text sha b) ≡ b.block_hash

abbrev pub Chained : Sha → Block → List Block → Type 0
Chained sha prev [] = Unit {0}
Chained sha prev (b ∷ bs) = Follows sha prev b × Chained sha b bs

-- Each block follows the one before it. Nothing is asked of the first.
abbrev pub IsChained : Sha → List Block → Type 0
IsChained sha [] = Unit {0}
IsChained sha (b ∷ bs) = Chained sha b bs

-- The three tests on a block, as one Boolean.
unfoldable pub follows : Sha → Block → Block → Bool
follows sha prev b =
    if time_lt b.time prev.time
    then false
    else if text_eq b.previus_hash prev.block_hash
    then text_eq (sha.digest (hash_text sha b)) b.block_hash
    else false

module _ (sha : Sha) where
  pub follows-Follows : (prev b : Block) → (follows sha prev b ≡ true) ↔ Follows sha prev b
  unfolding follows
  follows-Follows prev b = (
    (λ e. record {
      in_time = ground arith;
      linked = text_eq→eq b.previus_hash prev.block_hash (ground arith);
      sealed = text_eq→eq (sha.digest (hash_text sha b)) b.block_hash (ground arith);
    }),
    (λ f. ground (
      arith,
      f.in_time,
      (text_eq_iff b.previus_hash prev.block_hash).1 f.linked,
      (text_eq_iff (sha.digest (hash_text sha b)) b.block_hash).1 f.sealed,
    )),
  )

  check_from-Chained :
      (prev : Block) (bs : List Block)
      → IsHash prev.block_hash
      → All IsSealed bs
      → (bad : Bool) × (check_from sha prev bs ≡ some bad) × ((bad ≡ false) ↔ Chained sha prev bs)
  unfolding check_from follows
  check_from-Chained prev [] hp hs = (false, refl, ((λ e. tt), (λ c. refl)))
  check_from-Chained prev (b ∷ bs) hp hs =
      let (bad, run, iff) = check_from-Chained b bs hs.0.block_hash hs.1 in
      let link = memcmp-array 32 b.previus_hash prev.block_hash hs.0.hashed.previus.size hp.size in
      let seal =
        memcmp-array 32 b.block_hash (sha.digest (hash_text sha b)) hs.0.block_hash.size
          (sha.length-digest _) in
      (
        (if follows sha prev b then bad else true),
        rw (get_hash-text sha b hs.0.hashed, link, seal, text_eq_comm b.block_hash, run)
            (ground arith),
        (
          (λ e. ((follows-Follows prev b).0 (ground arith), iff.0 (ground arith))),
          (λ c. ground (arith, (follows-Follows prev b).1 c.0, iff.1 c.1)),
        ),
      )

  -- On blocks whose hash arrays hold 32 bytes, the transactions behind the first block fitting the
  -- buffers of `txsToString`, `checkBlockchain` ends without reading outside them, and finds
  -- nothing wrong exactly if each block follows the one before it: it is not older, names the hash
  -- of that block, and carries its own hash. Nothing is asked of the first block.
  pub check_blockchain-IsChained :
      (bc : Blockchain)
      → IsCheckable bc.blocks
      → (bad : Bool) × (check_blockchain sha bc ≡ some bad)
        × ((bad ≡ false) ↔ IsChained sha bc.blocks)
  unfolding check_blockchain check_blocks
  check_blockchain-IsChained bc sealed = go bc.blocks sealed
    where
      go :
          (bs : List Block)
          → IsCheckable bs
          → (bad : Bool) × (check_blocks sha bs ≡ some bad) × ((bad ≡ false) ↔ IsChained sha bs)
      go [] h = (false, refl, ((λ e. tt), (λ c. refl)))
      go (b ∷ bs) h = check_from-Chained b bs h.0 h.1

get_hash-AllPrint :
    (sha : Sha) (b : Block) (hash : List ℕ)
    → get_hash sha b ≡ some hash
    → AllPrint b.tl.transactions
unfolding get_hash
get_hash-AllPrint sha b hash e =
    let (buf, e1, k1) = >>=-eq-some (hash_buffer sha b (replicate (hash_buffer_size b) 0)) _ e in
    let (merkle, e2, k2) = >>=-eq-some (get_merkle_hash sha b) _ e1 in
    let (text, e3, k3) = >>=-eq-some (tl_to_string b.tl) _ e2 in tl_to_string-AllPrint b.tl text e3

check_from-AllPrint :
    (sha : Sha) (prev : Block) (bs : List Block)
    → check_from sha prev bs ≡ some false
    → All (λ b. AllPrint b.tl.transactions) bs
unfolding check_from
check_from-AllPrint sha prev [] e = tt
check_from-AllPrint sha prev (b ∷ bs) e =
    let (hash, e1, k) = >>=-eq-some (get_hash sha b) _ e in
    (get_hash-AllPrint sha b hash e1, check_from-AllPrint sha b bs (ground arith))

abbrev pub tail_of : List Block → List Block
tail_of [] = []
tail_of (b ∷ bs) = bs

-- Whatever `checkBlockchain` finds nothing wrong with fits the buffers of `txsToString`, but for the
-- first block.
pub check_blockchain-AllPrint :
    (sha : Sha) (bc : Blockchain)
    → check_blockchain sha bc ≡ some false
    → All (λ b. AllPrint b.tl.transactions) (tail_of bc.blocks)
unfolding check_blockchain check_blocks
check_blockchain-AllPrint sha bc e = go bc.blocks e
  where
    go :
        (bs : List Block)
        → check_blocks sha bs ≡ some false
        → All (λ b. AllPrint b.tl.transactions) (tail_of bs)
    go [] e = tt
    go (b ∷ bs) e = check_from-AllPrint sha b bs e

-- The last of a list that begins with `first`.
abbrev pub last_of : Block → List Block → Block
last_of first [] = first
last_of first (b ∷ bs) = last_of b bs

get_elem?-last :
    (first : Block) (bs : List Block) → get_elem? (first ∷ bs) (length bs) ≡ some (last_of first bs)
get_elem?-last first [] = refl
get_elem?-last first (b ∷ bs) = get_elem?-last b bs

pub get_last_block-last_of :
    (first : Block) (bs : List Block)
    → get_last_block (record { blocks = first ∷ bs }) ≡ some (last_of first bs)
unfolding get_last_block
get_last_block-last_of first bs =
    let e : suc (length bs) - 1 ≡ length bs = omega arith in
    let n : (suc (length bs) == 0) ≡ false = ground arith in rw (n, e) (get_elem?-last first bs)

pub Chained-append :
    (sha : Sha) (first : Block) (bs : List Block) (b : Block)
    → Chained sha first bs
    → Follows sha (last_of first bs) b
    → Chained sha first (bs ++ b ∷ [])
Chained-append sha first [] b c f = (f, tt)
Chained-append sha first (x ∷ bs) b c f = (c.0, Chained-append sha x bs b c.1 f)

pub last_of-All :
    (first : Block) (bs : List Block)
    → IsHash first.block_hash
    → All (λ b. IsHash b.block_hash) bs
    → IsHash (last_of first bs).block_hash
last_of-All first [] h hs = h
last_of-All first (b ∷ bs) h hs = last_of-All b bs hs.0 hs.1

module _ (sha : Sha) (first : Block) (bs : List Block) (b : Block)
    (sized : IsHash (last_of first bs).block_hash) (good : IsSealed b) where
  abbrev pub chain : Blockchain
  chain = record { blocks = first ∷ bs }

  -- On a chain with a first block, hash arrays of 32 bytes in its last block and the new one, and
  -- new transactions that fit the buffers of `txsToString`, `addBlock` adds the block exactly if
  -- it follows the last one; otherwise nothing changes.
  pub add_block-follows :
      add_block sha chain b
      ≡ some (
          if follows sha (last_of first bs) b
          then (true, record { blocks = first ∷ (bs ++ b ∷ []) })
          else (false, chain))
  unfolding add_block follows
  add_block-follows =
      let prev = last_of first bs in
      let link =
        memcmp-array 32 b.previus_hash prev.block_hash good.hashed.previus.size sized.size in
      let seal =
        memcmp-array 32 (sha.digest (hash_text sha b)) b.block_hash (sha.length-digest _)
          good.block_hash.size in
      rw (get_last_block-last_of first bs, get_hash-text sha b good.hashed, link, seal)
        (ground arith)

  -- On a linked chain with a first block, with hash arrays and transactions of the new block as
  -- `addBlock` needs them: whatever `addBlock` answers, the chain stays linked and gets no
  -- shorter.
  pub add_block-IsChained :
      (done : Bool) (bc : Blockchain)
      → IsChained sha (first ∷ bs)
      → add_block sha chain b ≡ some (done, bc)
      → IsChained sha bc.blocks × (blocks_number chain ≤ blocks_number bc)
  add_block-IsChained done bc c e = elim (Bool-cases (follows sha (last_of first bs) b)) [
    | inl good_block ↦
        let f = (follows-Follows sha (last_of first bs) b).0 good_block in
        along (λ r. IsChained sha r.1.blocks × (blocks_number chain ≤ blocks_number r.1))
          (sym (rw good_block at add_block-follows) ∙ e)
          (Chained-append sha first bs b c f, omega (arith, length-append bs (b ∷ [])))
    | inr bad_block ↦
        along (λ r. IsChained sha r.1.blocks × (blocks_number chain ≤ blocks_number r.1))
          (sym (rw bad_block at add_block-follows) ∙ e) (c, omega arith)
  ]
