-- ===== src/Node/Invariant.antt =====
-- What holds of a node, whatever reaches it.
use tek.Prelude.{
  ◌≤◌, ◌≡◌, sym, true, some, List, [], ◌∷◌, arith, ◌==◌, All, Bool-cases, inl, inr, length,
}
use mathlib.Core.Path.{subst}
use tek.Bytes.{IsByte, IsUll}
use tek.Hash.{Sha}
use tek.Transaction.{Transaction, TransactionsList}
use tek.Transaction.Binary.{IsTransaction}
use tek.Transaction.Store.{IsStored, Holds}
use tek.Block.{Block}
use tek.Block.Decode.{IsReceived}
use tek.Blockchain.{Blockchain, blocks_number}
use tek.Hash.{IsHash}
use tek.Transaction.Printed.{AllPrint}
use tek.Blockchain.Chain.{IsSealed, IsChained, IsCheckable, tail_of, last_of, last_of-All}
use tek.Blockchain.Pool.{AllWellFormed}
use tek.Message.{Message}
use tek.Node.{Node, accept_txs, accept_bc}
use tek.Node.Accept.{OneEach, OneEach-append, admits, accept_txs-admits}
use tek.Node.Chains.{IsNonempty, prefers, accept_bc-prefers, OneEach-pending}

-- A message as it comes off a socket.
pub record IsIncoming (m : Message) : Type 0 where
  pub bytes : All IsByte m.payload
  pub size : IsUll (length m.payload)

-- A block from the mining thread, whose transactions went through `txsToString`.
pub record IsMined (b : Block) : Type 0 where
  pub received : IsReceived b
  pub printed : AllPrint b.tl.transactions

-- The node's chain is linked and not empty, and its pending transactions are well formed, with one
-- for each sender at most. The queues hold what their producers make.
pub record IsNode (sha : Sha) (node : Node) : Type 0 where
  pub received : All IsReceived node.bc.blocks
  pub chained : IsChained sha node.bc.blocks
  pub nonempty : IsNonempty node.bc.blocks
  pub stored : IsStored node.tl
  pub one_each : OneEach node.tl.transactions
  pub messages : All IsIncoming node.incoming
  pub requests : All IsTransaction node.api_txs
  pub mined : All IsMined node.mining_blocks

-- The node keeps what `IsNode` says, and its chain gets no shorter.
pub record Steps (sha : Sha) (node node' : Node) : Type 0 where
  pub valid : IsNode sha node'
  pub longer : blocks_number node.bc ≤ blocks_number node'.bc

pub received-AllWellFormed : (bs : List Block) → All IsReceived bs → AllWellFormed bs
received-AllWellFormed [] h = tt
received-AllWellFormed (b ∷ bs) h = (h.0.block.stored.each, received-AllWellFormed bs h.1)

pub IsMined-IsSealed : (b : Block) → IsMined b → IsSealed b
IsMined-IsSealed b h = record {
  hashed = record {
    previus = h.received.previus;
    proof = h.received.block.proof;
    printed = h.printed;
  };
  block_hash = h.received.hash;
}

pub received-IsSealed :
    (bs : List Block)
    → All IsReceived bs
    → All (λ b. AllPrint b.tl.transactions) bs
    → All IsSealed bs
received-IsSealed [] h p = tt
received-IsSealed (b ∷ bs) h p =
    (IsMined-IsSealed b (record { received = h.0; printed = p.0 }), received-IsSealed bs h.1 p.1)

pub received-IsCheckable :
    (bs : List Block)
    → All IsReceived bs
    → All (λ b. AllPrint b.tl.transactions) (tail_of bs)
    → IsCheckable bs
received-IsCheckable [] h p = tt
received-IsCheckable (b ∷ bs) h p = (h.0.hash, received-IsSealed bs h.1 p)

received-sized : (bs : List Block) → All IsReceived bs → All (λ b. IsHash b.block_hash) bs
received-sized [] h = tt
received-sized (b ∷ bs) h = (h.0.hash, received-sized bs h.1)

pub last-IsHash :
    (first : Block) (bs : List Block)
    → All IsReceived (first ∷ bs)
    → IsHash (last_of first bs).block_hash
last-IsHash first bs h = last_of-All first bs h.0.hash (received-sized bs h.1)

module _ (sha : Sha) (node : Node) (ok : IsNode sha node) where
  pub Steps-same : Steps sha node node
  Steps-same = record { valid = ok; longer = omega arith }

  -- With another list of pending transactions, and whatever is sent.
  Steps-tl :
      (tl : TransactionsList) (ts : List Transaction) (out : List Message)
      → Holds ts tl
      → OneEach ts
      → Steps sha node (record node { tl = tl; outgoing = out })
  Steps-tl tl ts out held one = record {
    valid = record {
      received = ok.received;
      chained = ok.chained;
      nonempty = ok.nonempty;
      stored = held.stored;
      one_each = subst OneEach (sym held.items) one;
      messages = ok.messages;
      requests = ok.requests;
      mined = ok.mined;
    };
    longer = omega arith;
  }

  -- A transaction, from wherever it comes: the node takes it or leaves it, and runs on.
  pub accept_txs-Steps :
      (t : Transaction)
      → IsTransaction t
      → (node' : Node) × (accept_txs node t ≡ some node') × Steps sha node node'
  unfolding admits
  accept_txs-Steps t good =
      let all = received-AllWellFormed node.bc.blocks ok.received in
      let (tl, run, held) = accept_txs-admits node t all ok.stored good in
      elim (Bool-cases (admits node t)) [
        | inl taken ↦ (
          _,
          rw taken at run,
          Steps-tl tl _ _ held (OneEach-append node.tl.transactions t ok.one_each (ground arith)),
        )
        | inr left ↦ (node, rw left at run, Steps-same)
      ]

  -- The chain of the node is replaced by one that is no shorter.
  Steps-bc :
      (bc : Blockchain) (tl : TransactionsList) (ts : List Transaction)
      → All IsReceived bc.blocks
      → IsChained sha bc.blocks
      → IsNonempty bc.blocks
      → Holds ts tl
      → OneEach ts
      → blocks_number node.bc ≤ blocks_number bc
      → Steps sha node (record node { bc = bc; tl = tl })
  Steps-bc bc tl ts received chained nonempty held one longer = record {
    valid = record {
      received = received;
      chained = chained;
      nonempty = nonempty;
      stored = held.stored;
      one_each = subst OneEach (sym held.items) one;
      messages = ok.messages;
      requests = ok.requests;
      mined = ok.mined;
    };
    longer = longer;
  }

  prefers-longer : (cur new : List Block) → prefers cur new ≡ true → length cur ≤ length new
  unfolding prefers
  prefers-longer cur new e = ground arith

  IsNonempty-longer : (bs : List Block) → 1 ≤ length bs → IsNonempty bs
  IsNonempty-longer [] h = omega (arith, h)
  IsNonempty-longer (b ∷ bs) h = tt

  IsNonempty-length : (bs : List Block) → IsNonempty bs → 1 ≤ length bs
  IsNonempty-length [] h = absurd h
  IsNonempty-length (b ∷ bs) h = omega arith

  -- An empty chain is shorter than that of the node.
  accept_bc-empty :
      (bc : Blockchain) → (length bc.blocks == 0) ≡ true → accept_bc node bc ≡ some node
  unfolding accept_bc
  accept_bc-empty bc e = ground (arith, IsNonempty-length node.bc.blocks ok.nonempty)

  -- A chain that the check accepts.
  pub accept_bc-Steps :
      (bc : Blockchain)
      → All IsReceived bc.blocks
      → IsChained sha bc.blocks
      → (node' : Node) × (accept_bc node bc ≡ some node') × Steps sha node node'
  accept_bc-Steps bc received chained = elim (Bool-cases (length bc.blocks == 0)) [
    | inl empty ↦ (node, accept_bc-empty bc empty, Steps-same)
    | inr full ↦
        let nonempty = IsNonempty-longer bc.blocks (ground arith) in
        let (tl, run, held) =
          accept_bc-prefers node bc ok.nonempty nonempty (received-AllWellFormed bc.blocks received)
            ok.stored in
        elim (Bool-cases (prefers node.bc.blocks bc.blocks)) [
          | inl better ↦ (
            _,
            rw better at run,
            Steps-bc bc tl _ received chained nonempty held
                (OneEach-pending bc node.tl.transactions ok.one_each)
                (prefers-longer node.bc.blocks bc.blocks better),
          )
          | inr worse ↦ (node, rw worse at run, Steps-same)
        ]
  ]
