-- ===== src/Memory/Free.antt =====
-- What is not allocated stays so.
use tek.Memory.{Heap, store, release}
use tek.Prelude.{ℕ, ◌≡◌, none, some, >>=-eq-some, along, arith}

-- A store and a release leave an address free that was free.
module _ {A : Type 0} (h : Heap A) (a b : ℕ) (free : h.cells b ≡ none) where
  pub store-free : (c : A) (h' : Heap A) → store h a c ≡ some h' → h'.cells b ≡ none
  unfolding store
  store-free c h' e =
      let (old, at, done) = >>=-eq-some (h.cells a) _ e in
      along (λ (g : Heap A). g.cells b ≡ none) done (ground (arith, at, free))

  pub release-free : (h' : Heap A) → release h a ≡ some h' → h'.cells b ≡ none
  unfolding release
  release-free h' e =
      let (old, at, done) = >>=-eq-some (h.cells a) _ e in
      along (λ (g : Heap A). g.cells b ≡ none) done (ground (arith, at, free))
