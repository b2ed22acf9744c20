-- ===== src/Node/Chains.antt =====
-- Chains that reach the node: which are taken, and what then is pending.
use tek.Prelude.{
  ℕ, ◌≡◌, refl, Bool, false, some, List, [], ◌∷◌, arith, ltb, ◌==◌, if◌then◌else◌, Bool-cases, inl,
  inr, length,
}
use tek.Bytes.{time_lt}
use tek.Transaction.{Transaction, TransactionsList}
use tek.Transaction.Compare.{sent_by}
use tek.Transaction.Store.{IsStored, Holds}
use tek.Block.{Block}
use tek.Blockchain.{Blockchain, get_last_block}
use tek.Blockchain.Chain.{last_of, get_last_block-last_of}
use tek.Blockchain.Pool.{AllWellFormed, pending, stays, update_tl_with_bc-pending}
use tek.Node.{Node, replace_bc, accept_bc}
use tek.Node.Accept.{OneEach}

-- The last block of a list, where there is one.
abbrev pub IsNonempty : List Block → Type 0
IsNonempty [] = ⊥
IsNonempty (b ∷ bs) = Unit {0}

abbrev pub last_time : List Block → ℕ
last_time [] = 0
last_time (b ∷ bs) = (last_of b bs).time

-- The chain `new` is longer than `cur`, or as long with an earlier last block.
unfoldable pub prefers : List Block → List Block → Bool
prefers cur new =
    if length cur == length new
    then time_lt (last_time new) (last_time cur)
    else ltb (length cur) (length new)

last-time :
    (bc : Blockchain)
    → IsNonempty bc.blocks
    → (b : Block) × (get_last_block bc ≡ some b) × (b.time ≡ last_time bc.blocks)
last-time bc h = go bc.blocks h
  where
    go :
        (bs : List Block)
        → IsNonempty bs
        → (b : Block) × (get_last_block (record { blocks = bs }) ≡ some b) × (b.time ≡ last_time bs)
    go [] h = absurd h
    go (b ∷ bs) h = (last_of b bs, get_last_block-last_of b bs, refl)

-- On nonempty chains, the new one of well-formed transactions, and a well-formed list: a preferred
-- chain, longer or as long with an earlier last block, replaces that of the node, and what stays
-- pending is kept; any other chain changes nothing.
pub accept_bc-prefers :
    (node : Node) (bc : Blockchain)
    → IsNonempty node.bc.blocks
    → IsNonempty bc.blocks
    → AllWellFormed bc.blocks
    → IsStored node.tl
    → (tl : TransactionsList) × (accept_bc node bc
        ≡ some
            (if prefers node.bc.blocks bc.blocks then record node { bc = bc; tl = tl } else node))
      × Holds (pending bc node.tl.transactions) tl
unfolding accept_bc replace_bc prefers
accept_bc-prefers node bc some_cur some_new good stored =
    let (tl, updated, held) = update_tl_with_bc-pending node.tl bc good stored in
    let (cur, at_cur, t_cur) = last-time node.bc some_cur in
    let (new, at_new, t_new) = last-time bc some_new in
    (tl, rw (at_cur, at_new, updated, t_cur, t_new) (ground arith), held)

sent_by-pending :
    (bc : Blockchain) (a : List ℕ) (ts : List Transaction)
    → sent_by a ts ≡ false
    → sent_by a (pending bc ts) ≡ false
unfolding pending sent_by
sent_by-pending bc a [] e = refl
sent_by-pending bc a (t ∷ ts) e = ground (arith, sent_by-pending bc a ts)

pub OneEach-pending :
    (bc : Blockchain) (ts : List Transaction) → OneEach ts → OneEach (pending bc ts)
unfolding pending sent_by
OneEach-pending bc [] h = tt
OneEach-pending bc (t ∷ ts) h = elim (Bool-cases (stays bc t)) [
  | inl keep ↦ rw keep (sent_by-pending bc t.sender ts h.0, OneEach-pending bc ts h.1)
  | inr drop ↦ rw drop (OneEach-pending bc ts h.1)
]
