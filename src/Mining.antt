-- ===== src/Mining.antt =====
-- Projet/Noeud_de_minage/minage.c: the proof of work.
-- `sha` is the digest. `slack` is how many bytes behind the array `str` of `testproof` may be
-- written without harm: the C standard grants 0.
pub mod Digits
pub mod Candidate
pub mod Zeros
pub mod Threads
use tek.Prelude.{
  ℕ, zero, suc, ◌+◌, ◌-◌, ◌*◌, ◌/◌, ◌%◌, ◌^◌, Bool, true, false, not, ◌&&◌, ◌||◌, Option, none,
  some, List, [], ◌∷◌, ◌++◌, ltb, ◌==◌, if◌then◌else◌, ◌>>=◌, length, get_elem?, drop, replicate,
}
use tek.Bytes.{block, decimal, write_at}
use tek.Hash.{Sha, sha256, sha256_block_size}

-- The loop of `len_of_proof`. A 64-bit number is 0 after 20 divisions.
unfoldable pub len_loop : ℕ → ℕ → ℕ → ℕ
len_loop zero tmp len = len
len_loop (suc fuel) tmp len =
    let more = len_loop fuel (tmp / 10) (len + 1) in if tmp == 0 then len else more

unfoldable pub len_of_proof : ℕ → ℕ
unfolding len_loop
len_of_proof proof = len_loop 20 proof 0

-- `for (i = …; i < 32; i++) if (buf[i] != 0) res = 1;`
unfoldable pub any_nonzero : List ℕ → Bool
any_nonzero [] = false
any_nonzero (b ∷ buf) = not (b == 0) || any_nonzero buf

-- The low half of `buf[i]`, `none` outside the array.
unfoldable pub half_nonzero : List ℕ → ℕ → Option Bool
half_nonzero buf i = do b ← get_elem? buf i; some (not (b % 16 == 0))

-- The test that `thread_mining` and `testproof` make on a digest: `some true` is `res == 1`, the
-- last `diff` hexadecimal digits are not all 0. From `diff` 65 on an index is negative.
unfoldable pub misses : ℕ → List ℕ → Option Bool
unfolding any_nonzero half_nonzero
misses diff buf =
    let res = any_nonzero (drop (sha256_block_size - diff / 2) buf) in
    if ltb 64 diff
    then none
    else if (diff % 2 == 1) && not res
    then half_nonzero buf (sha256_block_size - diff / 2 - 1)
    else some res

-- `sprintf(str, "%llu%s", proof, sum); sha256(str, buf);` with `size` bytes in `str`.
unfoldable pub hash_candidate : Sha → ℕ → List ℕ → ℕ → Option (List ℕ)
unfolding sha256
hash_candidate sha size sum proof = do
  str ← write_at 0 (block (decimal proof ++ sum)) (replicate size 0)
  some (sha256 sha str)

-- One round of `thread_mining`.
unfoldable pub try_proof : Sha → ℕ → List ℕ → ℕ → Option Bool
unfolding hash_candidate misses
try_proof sha diff sum proof = do
  buf ← hash_candidate sha (8 * sha256_block_size) sum proof
  misses diff buf

-- `testproof`: `some false` is the return value 0, the proof is correct.
unfoldable pub testproof : Sha → ℕ → ℕ → List ℕ → ℕ → Option Bool
unfolding hash_candidate misses len_of_proof
testproof sha slack diff sum proof = do
  buf ← hash_candidate sha (4 * sha256_block_size + len_of_proof proof + 1 + slack) sum proof
  misses diff buf
