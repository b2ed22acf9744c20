-- ===== src/Network/Receive/Chunks.antt =====
-- A message arrives whole, in whatever pieces the connection delivers it.
use tek.Prelude.{
  ℕ, zero, suc, ◌+◌, ◌-◌, ◌≤◌, ◌<◌, ◌≡◌, refl, sym, ap, ◌∙◌, false, List, [], ◌∷◌, ◌++◌, arith,
  ◌==◌, leb, Bool-cases, inl, inr, length, take, drop, append-nil, append_assoc, length-append,
  length-drop, length-take, take-append-drop,
}
use tek.Network.Receive.{problem, received, read_some, read_loop}

-- The bytes that the connection delivers before its end.
abbrev pub stream : List (List ℕ) → List ℕ
stream [] = []
stream ([] ∷ pieces) = []
stream ((b ∷ bs) ∷ pieces) = (b ∷ bs) ++ stream pieces

stream_more :
    (bs : List ℕ) (pieces : List (List ℕ))
    → 0 < length bs
    → stream (bs ∷ pieces) ≡ bs ++ stream pieces
stream_more [] pieces h = absurd (omega arith)
stream_more (b ∷ bs) pieces h = refl

-- One `read`: some of the bytes, at least one if there is one, and the others after it.
read_some-stream :
    (n : ℕ) (socket : List (List ℕ))
    → 0 < n
    → 0 < length (stream socket)
    → (bytes : List ℕ) × (socket' : List (List ℕ)) × (read_some n socket ≡ (bytes, socket'))
      × (0 < length bytes)
      × (length bytes ≤ n)
      × (stream socket ≡ bytes ++ stream socket')
unfolding read_some
read_some-stream n [] some_n some_bytes = absurd (omega arith)
read_some-stream n ([] ∷ pieces) some_n some_bytes = absurd (omega arith)
read_some-stream zero ((b ∷ bs) ∷ pieces) some_n some_bytes = absurd (omega arith)
read_some-stream (suc n) ((b ∷ bs) ∷ pieces) some_n some_bytes =
    elim (Bool-cases (leb (length (b ∷ bs)) (suc n))) [
      | inl e ↦ (b ∷ bs, pieces, rw e refl, omega arith, ground (arith, e), refl)
      | inr e ↦
          let left : 0 < length (drop n bs) = ground (arith, e, length-drop n bs) in
          let parts : bs ++ stream pieces ≡ take n bs ++ (drop n bs ++ stream pieces) =
            ap (λ t. t ++ stream pieces) (sym (take-append-drop n bs))
            ∙ append_assoc (take n bs) (drop n bs) (stream pieces) in
          (
            b ∷ take n bs,
            drop n bs ∷ pieces,
            rw e refl,
            omega arith,
            omega (arith, length-take n bs),
            ap (λ t. b ∷ t)
                (parts ∙ ap (λ t. take n bs ++ t) (sym (stream_more (drop n bs) pieces left))),
          )
    ]

nonzero : (n : ℕ) → (suc n == 0) ≡ false
nonzero n = ground arith

pub prefix_split :
    (xs s bytes rest : List ℕ)
    → length xs ≤ length bytes
    → xs ++ s ≡ bytes ++ rest
    → (bytes ≡ xs ++ drop (length xs) bytes) × (s ≡ drop (length xs) bytes ++ rest)
prefix_split [] s bytes rest h e = (refl, e)
prefix_split (x ∷ xs) s [] rest h e = absurd (omega arith)
prefix_split (x ∷ xs) s (b ∷ bs) rest h e =
    let tails : xs ++ s ≡ bs ++ rest = ap (drop 1) e in
    let heads : b ≡ x = cc in
    let (whole, after) = prefix_split xs s bs rest (omega arith) tails in (cc, after)

read_some_end :
    (n : ℕ) (socket : List (List ℕ))
    → length (stream socket) ≡ 0
    → length (read_some n socket).0 ≡ 0
unfolding read_some
read_some_end n [] h = refl
read_some_end n ([] ∷ pieces) h = ground arith
read_some_end n ((b ∷ bs) ∷ pieces) h = absurd (omega arith)

-- A loop that is to read what the connection delivers reads it.
pub read_loop-received :
    (fuel n : ℕ) (socket : List (List ℕ)) (buf bytes rest : List ℕ)
    → n ≤ fuel
    → length bytes ≡ n
    → stream socket ≡ bytes ++ rest
    → (socket' : List (List ℕ)) × (read_loop fuel n socket buf ≡ received (buf ++ bytes) socket')
      × (stream socket' ≡ rest)
unfolding read_loop
read_loop-received zero zero socket buf [] rest enough size e =
    (socket, ap (λ t. received t socket) (sym (append-nil buf)), e)
read_loop-received (suc fuel) zero socket buf [] rest enough size e =
    (socket, ap (λ t. received t socket) (sym (append-nil buf)), e)
read_loop-received zero zero socket buf (b ∷ bs) rest enough size e = absurd (omega arith)
read_loop-received (suc fuel) zero socket buf (b ∷ bs) rest enough size e = absurd (omega arith)
read_loop-received zero (suc n) socket buf bytes rest enough size e = absurd (omega arith)
read_loop-received (suc fuel) (suc n) socket buf bytes rest enough size e =
    let some_bytes : 0 < length (stream socket) = rw e (omega (arith, length-append bytes rest)) in
    let (got, socket1, read, any, most, split) =
      read_some-stream (suc n) socket (omega arith) some_bytes in
    let (whole, after) =
      prefix_split got (stream socket1) bytes rest (omega (arith, most, size)) (sym split ∙ e) in
    let left : length (drop (length got) bytes) ≡ suc n - length got =
      omega (arith, length-drop (length got) bytes, size) in
    let (socket', ran, behind) =
      read_loop-received fuel (suc n - length got) socket1 (buf ++ got) (drop (length got) bytes)
        rest (omega (arith, any, enough)) left after in
    let more : (length got == 0) ≡ false = ground (arith, any) in
    (
      socket',
      rw (nonzero n, read, more)
          (ran
            ∙ ap (λ t. received t socket')
                (append_assoc buf got _ ∙ ap (λ t. buf ++ t) (sym whole))),
      behind,
    )

-- A loop that is to read more ends with a problem.
pub read_loop_short :
    (fuel n : ℕ) (socket : List (List ℕ)) (buf : List ℕ)
    → length (stream socket) < n
    → read_loop fuel n socket buf ≡ problem
unfolding read_loop
read_loop_short fuel zero socket buf short = absurd (omega arith)
read_loop_short zero (suc n) socket buf short = rw (nonzero n) refl
read_loop_short (suc fuel) (suc n) socket buf short =
    elim (Bool-cases (length (stream socket) == 0)) [
      | inl e ↦ rw (nonzero n, read_some_end (suc n) socket (ground (arith, e))) refl
      | inr e ↦
          let (got, socket1, read, any, most, split) =
            read_some-stream (suc n) socket (omega arith) (ground (arith, e)) in
          let more : (length got == 0) ≡ false = ground (arith, any) in
          let left : length (stream socket) ≡ length got + length (stream socket1) =
            ap length split ∙ length-append got (stream socket1) in
          rw (nonzero n, read, more)
            (read_loop_short fuel (suc n - length got) socket1 (buf ++ got)
              (omega (arith, left, any, most)))
    ]
