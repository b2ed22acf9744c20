-- ===== src/Mining/Zeros.antt =====
-- What the test on the digest says of its hexadecimal text.
use tek.Prelude.{
  some-eq, ℕ, zero, suc, ◌-◌, ◌*◌, ◌/◌, ◌%◌, ◌≤◌, ◌<◌, ◌≡◌, refl, Bool, true, false, not, ◌&&◌,
  some, List, [], ◌∷◌, arith, length, drop, get_elem?, ◌==◌, Bool-cases, inl, inr, ◌↔◌, All,
}
use tek.Bytes.{IsByte}
use tek.Hash.{IsHash, hex_digit, sha256_to_ascii}
use tek.Mining.{any_nonzero, half_nonzero, misses}

get_elem?_within : (l : List ℕ) (i : ℕ) → i < length l → (b : ℕ) × (get_elem? l i ≡ some b)
get_elem?_within [] i h = absurd (omega arith)
get_elem?_within (x ∷ l) zero h = (x, refl)
get_elem?_within (x ∷ l) (suc i) h = get_elem?_within l i (omega arith)

-- On a digest, with a difficulty up to 64, the test stays inside the array.
pub misses-total :
    (diff : ℕ) (buf : List ℕ)
    → length buf ≡ 32
    → diff ≤ 64
    → (b : Bool) × (misses diff buf ≡ some b)
unfolding misses half_nonzero
misses-total diff buf size easy =
    elim (Bool-cases ((diff % 2 == 1) && not (any_nonzero (drop (32 - diff / 2) buf)))) [
      | inl odd ↦
          let within : 32 - diff / 2 - 1 < length buf = ground arith in
          let (b, at) = get_elem?_within buf (32 - diff / 2 - 1) within in
          (not (b % 16 == 0), ground arith)
      | inr even ↦ (any_nonzero (drop (32 - diff / 2) buf), ground arith)
    ]

hex_digit-zero : (v : ℕ) → v < 16 → (hex_digit v ≡ b'0') ↔ (v ≡ 0)
unfolding hex_digit
hex_digit-zero v h = (λ e. ground arith, λ e. ground arith)

abbrev pub Zeros : List ℕ → Type 0
Zeros = All (λ c. c ≡ b'0')

any_nonzero-Zeros :
    (l : List ℕ) → All IsByte l → (any_nonzero l ≡ false) ↔ Zeros (sha256_to_ascii l)
unfolding any_nonzero sha256_to_ascii
any_nonzero-Zeros [] p = (λ e. tt, λ e. refl)
any_nonzero-Zeros (b ∷ l) p =
    let hi = hex_digit-zero (b / 16) (omega arith) in
    let lo = hex_digit-zero (b % 16) (omega arith) in
    let more = any_nonzero-Zeros l p.1 in
    (
      λ e. (hi.1 (ground arith), (lo.1 (ground arith), more.0 (ground arith))),
      λ z. ground (arith, hi.0 z.0, lo.0 z.1.0, more.1 z.1.1),
    )

drop-ascii : (k : ℕ) (h : List ℕ) → drop (2 * k) (sha256_to_ascii h) ≡ sha256_to_ascii (drop k h)
unfolding sha256_to_ascii
drop-ascii zero h = refl
drop-ascii (suc k) [] = let e : 2 * suc k ≡ suc (suc (2 * k)) = omega arith in rw e
drop-ascii (suc k) (b ∷ h) =
    let e : 2 * suc k ≡ suc (suc (2 * k)) = omega arith in rw e (drop-ascii k h)

drop_odd-ascii :
    (k : ℕ) (h : List ℕ) {b : ℕ}
    → get_elem? h k ≡ some b
    → drop (suc (2 * k)) (sha256_to_ascii h) ≡ hex_digit (b % 16) ∷ sha256_to_ascii (drop (suc k) h)
unfolding sha256_to_ascii
drop_odd-ascii k [] at = cc
drop_odd-ascii zero (c ∷ h) at = rw (some-eq at)
drop_odd-ascii (suc k) (c ∷ h) at =
    let e : 2 * suc k ≡ suc (suc (2 * k)) = omega arith in rw e (drop_odd-ascii k h at)

All-drop : (k : ℕ) (l : List ℕ) → All IsByte l → All IsByte (drop k l)
All-drop zero l p = p
All-drop (suc k) [] p = tt
All-drop (suc k) (b ∷ l) p = All-drop k l p.1

module _ (diff : ℕ) (buf : List ℕ) (hash : IsHash buf) (easy : diff ≤ 64) where
  abbrev tail_bytes : List ℕ
  tail_bytes = drop (32 - diff / 2) buf

  abbrev tail_text : List ℕ
  tail_text = drop (64 - diff) (sha256_to_ascii buf)

  -- An even difficulty asks for whole bytes.
  even-Zeros : (diff % 2 == 1) ≡ false → (misses diff buf ≡ some false) ↔ Zeros tail_text
  unfolding misses
  even-Zeros even =
      let at : 64 - diff ≡ 2 * (32 - diff / 2) = ground arith in
      let zeros = any_nonzero-Zeros tail_bytes (All-drop _ buf hash.bytes) in
      rw (at, drop-ascii (32 - diff / 2) buf)
        ((λ e. zeros.0 (ground arith)), (λ z. ground (arith, zeros.1 z)))

  -- An odd one asks for half a byte more.
  odd-Zeros : (diff % 2 == 1) ≡ true → (misses diff buf ≡ some false) ↔ Zeros tail_text
  unfolding misses half_nonzero
  odd-Zeros odd =
      let k = 31 - diff / 2 in
      let within : k < length buf = ground (arith, hash.size) in
      let (b, at) = get_elem?_within buf k within in
      let cut : 64 - diff ≡ suc (2 * k) = ground arith in
      let rest : suc k ≡ 32 - diff / 2 = ground arith in
      let index : 32 - diff / 2 - 1 ≡ k = ground arith in
      let zeros = any_nonzero-Zeros tail_bytes (All-drop _ buf hash.bytes) in
      let half = hex_digit-zero (b % 16) (omega arith) in
      rw (cut, drop_odd-ascii k buf at, rest)
        (
          (λ e. (half.1 (ground (arith, index)), zeros.0 (ground arith))),
          (λ z. ground (arith, index, half.0 z.0, zeros.1 z.1)),
        )

  -- On a digest of 32 bytes and with a difficulty up to 64, the test passes exactly if the last
  -- `diff` hexadecimal digits are 0.
  pub misses-Zeros : (misses diff buf ≡ some false) ↔ Zeros tail_text
  misses-Zeros = elim (Bool-cases (diff % 2 == 1)) [
    | inl odd ↦ odd-Zeros odd
    | inr even ↦ even-Zeros even
  ]
