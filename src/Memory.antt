-- ===== src/Memory.antt =====
-- Allocated objects of one type, by their addresses.
pub mod Free
use tek.Prelude.{ℕ, ◌+◌, Option, none, some, ◌==◌, if◌then◌else◌, ◌>>=◌}

-- What is allocated, and an address from which on nothing ever was.
pub record Heap (A : Type 0) : Type 0 where
  pub cells : ℕ → Option A
  pub top : ℕ

abbrev pub set : {A : Type 0} → (ℕ → Option A) → ℕ → Option A → ℕ → Option A
set cells a c b = if a == b then c else cells b

-- A store to, and a release of, what is not allocated are `none`.
unfoldable pub store : {A : Type 0} → Heap A → ℕ → A → Option (Heap A)
store h a c = do old ← h.cells a; some (record h { cells = set h.cells a (some c) })

unfoldable pub release : {A : Type 0} → Heap A → ℕ → Option (Heap A)
release h a = do old ← h.cells a; some (record h { cells = set h.cells a none })

abbrev pub alloc : {A : Type 0} → Heap A → A → Heap A
alloc h c = record { cells = set h.cells h.top (some c); top = h.top + 1 }
