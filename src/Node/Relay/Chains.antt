-- ===== src/Node/Relay/Chains.antt =====
-- A chain that one node sends and another gets, over a connection.
use tek.Prelude.{
  ℕ, suc, ◌≡◌, refl, sym, ap, some, List, [], ◌∷◌, ◌++◌, append-nil, arith, if◌then◌else◌, All,
  length,
}
use mathlib.Core.Path.{subst}
use tek.Bytes.{IsUll}
use tek.Hash.{Sha}
use tek.Transaction.{TransactionsList}
use tek.Transaction.Store.{Holds}
use tek.Transaction.Printed.{AllPrint}
use tek.Block.{Block}
use tek.Block.Binary.{SameBlock}
use tek.Blockchain.{Blockchain, blocks_number, blockchain_to_bin}
use tek.Blockchain.Binary.{SameBlocks, bin_to_blockchain-blockchain_to_bin}
use tek.Blockchain.Chain.{tail_of, last_of, check_blockchain-IsChained}
use tek.Blockchain.Pool.{pending}
use tek.Message.Binary.{IsMessage}
use tek.Network.Clients.{Attempt}
use tek.Network.Receive.{Inbox, read_thread}
use tek.Network.Receive.Chunks.{stream}
use tek.Network.Listen.Serves.{read_thread-incoming}
use tek.Network.Send.All.Every.{bytes_of}
use tek.Node.{Node, handle_message}
use tek.Node.Chains.{last_time, prefers, accept_bc-prefers}
use tek.Node.Invariant.{IsNode, received-AllWellFormed, received-IsCheckable}
use tek.Node.Handled.{chain_message}
use tek.Node.Start.Again.{time_same, SameBlocks-received, SameBlocks-IsChained, IsReceived-IsBlock}
use tek.Node.Relay.{bytes-Carries}

abbrev Printed : List Block → Type 0
Printed bs = All (λ b. AllPrint b.tl.transactions) bs

SameBlocks-Printed : (bs cs : List Block) → SameBlocks bs cs → Printed bs → Printed cs
SameBlocks-Printed [] [] sames ok = tt
SameBlocks-Printed [] (c ∷ cs) sames ok = absurd sames
SameBlocks-Printed (b ∷ bs) [] sames ok = absurd sames
SameBlocks-Printed (b ∷ bs) (c ∷ cs) sames ok =
    (subst AllPrint (sym sames.0.items.items) ok.0, SameBlocks-Printed bs cs sames.1 ok.1)

SameBlocks-tail_of : (bs cs : List Block) → SameBlocks bs cs → SameBlocks (tail_of bs) (tail_of cs)
SameBlocks-tail_of [] [] sames = tt
SameBlocks-tail_of [] (c ∷ cs) sames = absurd sames
SameBlocks-tail_of (b ∷ bs) [] sames = absurd sames
SameBlocks-tail_of (b ∷ bs) (c ∷ cs) sames = sames.1

SameBlocks-length : (bs cs : List Block) → SameBlocks bs cs → length cs ≡ length bs
SameBlocks-length [] [] sames = refl
SameBlocks-length [] (c ∷ cs) sames = absurd sames
SameBlocks-length (b ∷ bs) [] sames = absurd sames
SameBlocks-length (b ∷ bs) (c ∷ cs) sames = ap suc (SameBlocks-length bs cs sames.1)

last_of-SameBlocks :
    (b c : Block) (bs cs : List Block)
    → SameBlock b c
    → SameBlocks bs cs
    → (last_of c cs).time ≡ (last_of b bs).time
last_of-SameBlocks b c [] [] same sames = time_same same
last_of-SameBlocks b c [] (d ∷ cs) same sames = absurd sames
last_of-SameBlocks b c (d ∷ bs) [] same sames = absurd sames
last_of-SameBlocks b c (d ∷ bs) (e ∷ cs) same sames = last_of-SameBlocks d e bs cs sames.0 sames.1

last_time-SameBlocks : (bs cs : List Block) → SameBlocks bs cs → last_time cs ≡ last_time bs
last_time-SameBlocks [] [] sames = refl
last_time-SameBlocks [] (c ∷ cs) sames = absurd sames
last_time-SameBlocks (b ∷ bs) [] sames = absurd sames
last_time-SameBlocks (b ∷ bs) (c ∷ cs) sames = last_of-SameBlocks b c bs cs sames.0 sames.1

-- A chain is as good as another with the same blocks.
prefers-SameBlocks : (cur bs cs : List Block) → SameBlocks bs cs → prefers cur cs ≡ prefers cur bs
unfolding prefers
prefers-SameBlocks cur bs cs sames =
    rw (SameBlocks-length bs cs sames, last_time-SameBlocks bs cs sames) refl

chain_message-IsMessage :
    (bc : Blockchain) → IsUll (length (blockchain_to_bin bc)) → IsMessage (chain_message bc)
chain_message-IsMessage bc small = record { kind = omega arith; size = refl; ull = small }

module _ (sha : Sha) (fuel find_fuel : ℕ) (attempts : ℕ → Attempt) (list : ℕ) (inbox : Inbox)
    (socket : List (List ℕ)) (rest : List ℕ) where
  -- On two well-formed nodes, the first with fewer than 2 ^ 64 blocks, whose transactions fit the
  -- buffers of `txsToString` but for the first block, in fewer than 2 ^ 64 bytes: from a connection
  -- that delivers the bytes of the message with the chain of the first node, in any pieces, the second
  -- gets it into its queue. When its loop takes it from there, it reads the same blocks and finds
  -- nothing wrong with them. It replaces its own chain by them and keeps what stays pending if they
  -- are more, or as many with an earlier last block, and changes nothing otherwise.
  pub relay_bc :
      (a b : Node)
      → IsNode sha a
      → IsNode sha b
      → IsUll (blocks_number a.bc)
      → IsUll (length (blockchain_to_bin a.bc))
      → All (λ b. AllPrint b.tl.transactions) (tail_of a.bc.blocks)
      → stream socket ≡ bytes_of (chain_message a.bc) ++ rest
      → (bc : Blockchain) × (tl : TransactionsList) × SameBlocks a.bc.blocks bc.blocks
        × (read_thread fuel find_fuel attempts list inbox socket
            ≡ some (record inbox { incoming = inbox.incoming ++ chain_message a.bc ∷ [] }))
        × (handle_message sha b (chain_message a.bc)
            ≡ some (if prefers b.bc.blocks a.bc.blocks then record b { bc = bc; tl = tl } else b))
        × Holds (pending bc b.tl.transactions) tl
  unfolding handle_message
  relay_bc a b ok_a ok_b count small printed arrives =
      let (bc, read, same) =
        bin_to_blockchain-blockchain_to_bin a.bc (IsReceived-IsBlock a.bc.blocks ok_a.received)
          count [] in
      let received = SameBlocks-received a.bc.blocks bc.blocks same ok_a.received in
      let (chained, nonempty) =
        SameBlocks-IsChained sha a.bc.blocks bc.blocks same ok_a.chained ok_a.nonempty in
      let prints =
        SameBlocks-Printed (tail_of a.bc.blocks) (tail_of bc.blocks)
          (SameBlocks-tail_of a.bc.blocks bc.blocks same) printed in
      let (bad, checked, iff) =
        check_blockchain-IsChained sha bc (received-IsCheckable bc.blocks received prints) in
      let (tl, run, held) =
        accept_bc-prefers b bc ok_b.nonempty nonempty (received-AllWellFormed bc.blocks received)
          ok_b.stored in
      let carries =
        bytes-Carries (chain_message a.bc) socket rest (chain_message-IsMessage a.bc small) refl
          arrives in
      let whole = rw (append-nil (blockchain_to_bin a.bc)) at read in
      let good = prefers-SameBlocks b.bc.blocks a.bc.blocks bc.blocks same in
      (
        bc,
        tl,
        same,
        read_thread-incoming fuel find_fuel attempts list inbox socket (chain_message a.bc) carries,
        rw (whole, checked, iff.1 chained) (rw good at run),
        held,
      )
