-- ===== src/Block/Writes.antt =====
-- Writes one behind the other into a buffer, as `getHash` makes them.
use mathlib.Core.Path.{subst}
use tek.Prelude.{
  ℕ, ◌+◌, ◌≤◌, ◌≡◌, refl, Option, some, List, [], ◌∷◌, ◌++◌, append-nil, arith, ◌>>=◌, length,
  length-append,
}
use tek.Bytes.{write_at}
use tek.Bytes.Buffer.{write_at-append, behind, length-behind}

-- `text` was written at the start of a buffer of `n` bytes.
pub record Begins (n : ℕ) (text buf : List ℕ) : Type 0 where
  pub tail : List ℕ
  pub whole : buf ≡ text ++ tail
  pub size : length text + length tail ≡ n

-- A run of writes that stays inside the buffer and leaves `text` at its start.
pub data Written (n : ℕ) (text : List ℕ) : Option (List ℕ) → Type 0 where
  written : {buf : List ℕ} → Begins n text buf → Written n text (some buf)

Written-bind :
    {n : ℕ} {text text' : List ℕ} {run : Option (List ℕ)} {f : List ℕ → Option (List ℕ)}
    → Written n text run
    → ((buf : List ℕ) → Begins n text buf → Written n text' (f buf))
    → Written n text' (run >>= f)
Written-bind (written b) next = next _ b

-- A write behind the text, of which `keep` will stay.
write-Begins :
    (n offset : ℕ) (text keep over buf : List ℕ)
    → offset ≡ length text
    → length text + length (keep ++ over) ≤ n
    → Begins n text buf
    → Written n (text ++ keep) (write_at offset (keep ++ over) buf)
write-Begins n offset text keep over buf at fits b =
    let fits' : length (keep ++ over) ≤ length b.tail = omega (arith, b.size) in
    rw (b.whole, write_at-append offset text keep over b.tail at fits')
      (written (record {
        tail = behind keep over b.tail;
        whole = refl;
        size = omega (arith, b.size, length-behind keep over b.tail fits', length-append text keep);
      }))

-- A write of which all will stay.
write_whole-Begins :
    (n offset : ℕ) (text bytes buf : List ℕ)
    → offset ≡ length text
    → length text + length bytes ≤ n
    → Begins n text buf
    → Written n (text ++ bytes) (write_at offset bytes buf)
write_whole-Begins n offset text bytes buf at fits b =
    let fits' : length text + length (bytes ++ []) ≤ n = omega (arith, length-append bytes []) in
    subst (λ l. Written n (text ++ bytes) (write_at offset l buf)) (append-nil bytes)
      (write-Begins n offset text bytes [] buf at fits' b)

-- The five writes, by the lengths of what they write.
module _ (n len : ℕ) (p over1 t over2 h m : List ℕ) (lp : len ≡ length p) (lt : length t ≡ 11)
    (lh : length h ≡ 64) (lm : length m ≡ 64) (size : n ≡ len + 140)
    (fits1 : length (p ++ over1) ≤ 21) (fits2 : length (t ++ over2) ≤ 21) where
  abbrev text2 : List ℕ
  text2 = p ++ t

  abbrev text3 : List ℕ
  text3 = text2 ++ h

  abbrev text4 : List ℕ
  text4 = text3 ++ m

  pub five_writes :
      (stack : List ℕ)
      → length stack ≡ n
      → Written n (text4 ++ 0 ∷ []) (do
        buf1 ← write_at 0 (p ++ over1) stack
        buf2 ← write_at len (t ++ over2) buf1
        buf3 ← write_at (len + 11) h buf2
        buf4 ← write_at (len + 11 + 64) m buf3
        write_at (len + 11 + 64 + 64) (0 ∷ []) buf4)
  five_writes stack whole =
      let l2 = length-append p t in
      let l3 = length-append text2 h in
      let l4 = length-append text3 m in
      let start : Begins n [] stack = record { tail = stack; whole = refl; size = omega arith } in
      Written-bind (write-Begins n 0 [] p over1 stack refl (omega arith) start) λ buf1 b1.
        Written-bind (write-Begins n len p t over2 buf1 lp (omega arith) b1) λ buf2 b2.
          Written-bind (write_whole-Begins n (len + 11) text2 h buf2 (omega arith) (omega arith) b2)
            λ buf3 b3.
              Written-bind
                (write_whole-Begins n (len + 11 + 64) text3 m buf3 (omega arith) (omega arith) b3)
                λ buf4 b4.
                  write_whole-Begins n (len + 11 + 64 + 64) text4 (0 ∷ []) buf4 (omega arith)
                    (omega arith) b4
