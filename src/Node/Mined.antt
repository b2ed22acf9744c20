-- ===== src/Node/Mined.antt =====
-- What a round of `mining` makes, and what becomes of it.
use tek.Prelude.{
  ℕ, suc, ◌^◌, ◌<◌, ◌≡◌, refl, ap, ◌∙◌, sym, true, false, not, some, List, [], ◌∷◌, ◌++◌, arith,
  All, All-append, Bool-cases, inl, inr, length, drop, zero,
}
use mathlib.Core.Path.{subst}
use tek.Bytes.{IsUll, time_lt}
use tek.Bytes.Text.{text_eq, text_eq_refl}
use tek.Hash.{Sha, IsHash, digest-IsHash}
use tek.Transaction.{Transaction, TransactionsList, size, init_list_txs}
use tek.Transaction.Store.{IsStored, Holds, init-IsStored, add_all-Holds, remove_txs_list-Holds}
use tek.Block.{Block, init_block, get_hash}
use tek.Block.Decode.{IsReceived}
use tek.Block.HashText.{hash_text}
use tek.Block.Seal.{sum_text, sum_of-text, seal-hash}
use tek.Blockchain.{Blockchain, blockchain_to_bin}
use tek.Blockchain.Chain.{follows, last_of, get_last_block-last_of, add_block-follows}
use tek.Message.{type_blockchain}
use tek.Message.Binary.{create_message-whole}
use tek.Node.{Node, handle_mined}
use tek.Node.Accept.{OneEach}
use tek.Node.Invariant.{IsNode, Steps, IsMined, IsMined-IsSealed, last-IsHash}
use tek.Transaction.Printed.{AllPrint}
use tek.Node.Miner.{Job, start_mining, finish_mining}
use tek.Node.Handled.{chain_message}

-- A block that waits for its proof.
pub record IsJob (job : Job) : Type 0 where
  pub previus : IsHash job.block.previus_hash
  pub stored : IsStored job.block.tl
  pub count : IsUll (size job.block.tl)
  pub soon : job.block.time < 10 ^ 11
  pub printed : AllPrint job.block.tl.transactions

last_of-IsReceived :
    (first : Block) (bs : List Block) → All IsReceived (first ∷ bs) → IsReceived (last_of first bs)
last_of-IsReceived first [] h = h.0
last_of-IsReceived first (b ∷ bs) h = last_of-IsReceived b bs h.1

-- On well-formed blocks and transactions that fit the buffers of `txsToString`, and a clock that
-- shows less than 10 ^ 11, the round starts with a block behind the last one of the chain, with
-- all pending transactions in their order, and with the text that is to be mined.
pub start_mining-job :
    (sha : Sha) (now : ℕ) (junk first : Block) (bs : List Block) (txl : TransactionsList)
    → now < 10 ^ 11
    → All IsReceived (first ∷ bs)
    → IsStored txl
    → AllPrint txl.transactions
    → (tl : TransactionsList) × (let block = record (init_block now junk) {
      previus_hash = (last_of first bs).block_hash;
      tl = tl;
    } in
        start_mining sha now junk (record { blocks = first ∷ bs }) txl
        ≡ some (record { block = block; nb_transactions = size txl; sum = sum_text sha block }))
      × Holds txl.transactions tl
unfolding start_mining init_block
start_mining-job sha now junk first bs txl soon received stored printed =
    let last = last_of-IsReceived first bs received in
    let (tl, added, held) =
      add_all-Holds init_list_txs txl.transactions init-IsStored stored.each in
    let block : Block = record junk {
      time = now;
      previus_hash = (last_of first bs).block_hash;
      tl = tl;
    } in
    (
      tl,
      rw
          (
            get_last_block-last_of first bs,
            added,
            sum_of-text sha block last.hash soon (subst AllPrint (sym held.items) printed),
          )
          refl,
      held,
    )

OneEach-drop : (n : ℕ) (ts : List Transaction) → OneEach ts → OneEach (drop n ts)
OneEach-drop zero ts h = h
OneEach-drop (suc n) [] h = tt
OneEach-drop (suc n) (t ∷ ts) h = OneEach-drop n ts h.1

module _ (sha : Sha) (job : Job) (ready : IsJob job) (proof : ℕ) (ull : IsUll proof) where
  -- The block with its proof and its hash.
  abbrev pub mined : Block
  mined = record job.block {
    proof = proof;
    block_hash = sha.digest (hash_text sha (record job.block { proof = proof }));
  }

  mined-IsReceived : IsReceived mined
  mined-IsReceived = record {
    block = record {
      previus_size = ready.previus.size;
      hash_size = sha.length-digest _;
      proof = ull;
      time = omega (arith, ready.soon);
      stored = ready.stored;
      count = ready.count;
    };
    previus = ready.previus;
    hash = digest-IsHash sha _;
  }

  mined-IsMined : IsMined mined
  mined-IsMined = record { received = mined-IsReceived; printed = ready.printed }

  -- It follows the block that it names, unless the clock went back.
  mined-follows :
      (prev : Block)
      → job.block.previus_hash ≡ prev.block_hash
      → follows sha prev mined ≡ not (time_lt job.block.time prev.time)
  unfolding follows tek.Block.HashText.merkle_hash
  mined-follows prev e =
      let link : text_eq job.block.previus_hash prev.block_hash ≡ true =
        rw e (text_eq_refl prev.block_hash) in
      let sealed : text_eq (sha.digest (hash_text sha mined)) mined.block_hash ≡ true =
        text_eq_refl (sha.digest (hash_text sha mined)) in
      elim (Bool-cases (time_lt job.block.time prev.time)) [
        | inl early ↦ rw early
        | inr late ↦ rw (late, link) sealed
      ]

  -- The end of a round with a well-formed job and a 64-bit proof, whatever happened to the node
  -- since its start: the block waits in the queue, that many transactions are dropped from the
  -- front of the pending ones, and the node stays well formed.
  pub finish_mining-Steps :
      (node : Node)
      → IsNode sha node
      → (tl : TransactionsList) × (finish_mining sha job proof node
          ≡ some (record node { tl = tl; mining_blocks = node.mining_blocks ++ mined ∷ [] }))
        × Holds (drop job.nb_transactions node.tl.transactions) tl
        × Steps sha node (record node { tl = tl; mining_blocks = node.mining_blocks ++ mined ∷ [] })
  unfolding finish_mining
  finish_mining-Steps node ok =
      let (tl, removed, held) =
        remove_txs_list-Holds node.tl 0 job.nb_transactions (omega arith) ok.stored in
      (
        tl,
        rw (removed, seal-hash sha job.block ready.previus ready.soon ready.printed proof ull) refl,
        held,
        record {
          valid = record {
            received = ok.received;
            chained = ok.chained;
            nonempty = ok.nonempty;
            stored = held.stored;
            one_each =
                subst OneEach (sym held.items)
                  (OneEach-drop job.nb_transactions node.tl.transactions ok.one_each);
            messages = ok.messages;
            requests = ok.requests;
            mined = All-append IsMined node.mining_blocks (mined ∷ []) ok.mined (mined-IsMined, tt);
          };
          longer = omega arith;
        },
      )

  -- On a well-formed node, the block of a finished round is added to the chain, and the chain is
  -- sent, if the block names the hash of the last block and the clock did not go back.
  pub handle_mined-added :
      (node : Node) (first : Block) (bs : List Block)
      → IsNode sha node
      → node.bc.blocks ≡ first ∷ bs
      → job.block.previus_hash ≡ (last_of first bs).block_hash
      → time_lt job.block.time (last_of first bs).time ≡ false
      → (let longer : Blockchain = record { blocks = first ∷ (bs ++ mined ∷ []) } in
          handle_mined sha node mined
          ≡ some
              (record node { bc = longer; outgoing = node.outgoing ++ chain_message longer ∷ [] }))
  unfolding handle_mined
  handle_mined-added node first bs ok e link in_time =
      let sized = last-IsHash first bs (subst (All IsReceived) e ok.received) in
      let bc_eq : node.bc ≡ record { blocks = first ∷ bs } = ap (λ l. record { blocks = l }) e in
      let fits : follows sha (last_of first bs) mined ≡ true =
        mined-follows (last_of first bs) link ∙ ap not in_time in
      let run = add_block-follows sha first bs mined sized (IsMined-IsSealed mined mined-IsMined) in
      let bin = blockchain_to_bin (record { blocks = first ∷ (bs ++ mined ∷ []) }) in
      rw (bc_eq, run, fits, create_message-whole type_blockchain (length bin) bin refl) refl
