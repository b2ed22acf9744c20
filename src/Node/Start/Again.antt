-- ===== src/Node/Start/Again.antt =====
-- A node that is started again from the file of the saved chain.
use mathlib.Core.Path.{subst}
use tek.Prelude.{ℕ, ◌≡◌, refl, sym, ap, ◌∙◌, true, some, Option, List, [], ◌∷◌, All, length}
use tek.Bytes.{IsUll}
use tek.Hash.{Sha}
use tek.Transaction.{init_list_txs}
use tek.Transaction.Store.{init-IsStored}
use tek.Block.{Block}
use tek.Block.Binary.{IsBlock, SameBlock}
use tek.Block.Decode.{IsReceived}
use tek.Block.HashText.{hash_text, merkle_hash}
use tek.Blockchain.{blocks_number, blockchain_to_bin}
use tek.Blockchain.Binary.{SameBlocks, load_blockchain-save_blockchain}
use tek.Blockchain.Chain.{Follows, Chained, IsChained}
use tek.Message.{Message}
use tek.Network.Start.{online}
use tek.Node.{Node}
use tek.Node.Chains.{IsNonempty}
use tek.Node.Invariant.{IsIncoming, IsNode}
use tek.Node.Start.{Genesis, save_worker, start_gestion}

-- A block with another list of the same transactions.
module _ {b b' : Block} (same : SameBlock b b') where
  SameBlock-received : IsReceived b → IsReceived b'
  SameBlock-received ok = rw same.same (record {
    block = record {
      previus_size = ok.block.previus_size;
      hash_size = ok.block.hash_size;
      proof = ok.block.proof;
      time = ok.block.time;
      stored = same.items.stored;
      count = subst (λ ts. IsUll (length ts)) (sym same.items.items) ok.block.count;
    };
    previus = ok.previus;
    hash = ok.hash;
  })

  pub time_same : b'.time ≡ b.time
  time_same = ap (λ (x : Block). x.time) same.same

  previus_same : b'.previus_hash ≡ b.previus_hash
  previus_same = ap (λ (x : Block). x.previus_hash) same.same

  hash_same : b'.block_hash ≡ b.block_hash
  hash_same = ap (λ (x : Block). x.block_hash) same.same

  proof_same : b'.proof ≡ b.proof
  proof_same = ap (λ (x : Block). x.proof) same.same

  hash_text-SameBlock : (sha : Sha) → hash_text sha b' ≡ hash_text sha b
  unfolding merkle_hash
  hash_text-SameBlock sha = rw (proof_same, time_same, previus_same, same.items.items) refl

SameBlock-Follows :
    {sha : Sha} {p p' b b' : Block}
    → SameBlock p p'
    → SameBlock b b'
    → Follows sha p b
    → Follows sha p' b'
SameBlock-Follows {sha} same_p same_b f = record {
  in_time = rw (time_same same_b, time_same same_p) f.in_time;
  linked = previus_same same_b ∙ f.linked ∙ sym (hash_same same_p);
  sealed = ap sha.digest (hash_text-SameBlock same_b sha) ∙ f.sealed ∙ sym (hash_same same_b);
}

SameBlocks-Chained :
    (sha : Sha) {p p' : Block} (bs cs : List Block)
    → SameBlock p p'
    → SameBlocks bs cs
    → Chained sha p bs
    → Chained sha p' cs
SameBlocks-Chained sha [] [] same sames c = tt
SameBlocks-Chained sha [] (c ∷ cs) same sames ch = absurd sames
SameBlocks-Chained sha (b ∷ bs) [] same sames ch = absurd sames
SameBlocks-Chained sha (b ∷ bs) (c ∷ cs) same sames ch =
    (SameBlock-Follows same sames.0 ch.0, SameBlocks-Chained sha bs cs sames.0 sames.1 ch.1)

pub SameBlocks-received :
    (bs cs : List Block) → SameBlocks bs cs → All IsReceived bs → All IsReceived cs
SameBlocks-received [] [] sames ok = tt
SameBlocks-received [] (c ∷ cs) sames ok = absurd sames
SameBlocks-received (b ∷ bs) [] sames ok = absurd sames
SameBlocks-received (b ∷ bs) (c ∷ cs) sames ok =
    (SameBlock-received sames.0 ok.0, SameBlocks-received bs cs sames.1 ok.1)

pub SameBlocks-IsChained :
    (sha : Sha) (bs cs : List Block)
    → SameBlocks bs cs
    → IsChained sha bs
    → IsNonempty bs
    → IsChained sha cs × IsNonempty cs
SameBlocks-IsChained sha [] cs sames ch some_bs = absurd some_bs
SameBlocks-IsChained sha (b ∷ bs) [] sames ch some_bs = absurd sames
SameBlocks-IsChained sha (b ∷ bs) (c ∷ cs) sames ch some_bs =
    (SameBlocks-Chained sha bs cs sames.0 sames.1 ch, tt)

pub IsReceived-IsBlock : (bs : List Block) → All IsReceived bs → All IsBlock bs
IsReceived-IsBlock [] ok = tt
IsReceived-IsBlock (b ∷ bs) ok = (ok.0.block, IsReceived-IsBlock bs ok.1)

-- When the saved file of a well-formed node, with fewer than 2 ^ 64 blocks in fewer than 2 ^ 64
-- bytes, is loaded at the next start, with messages as they come off a socket: the node is again
-- well formed, with the same blocks and no pending transaction.
pub start_gestion-save_worker :
    (sha : Sha) (node : Node) (file : Option (List ℕ)) (difficulty : ℕ) (g : Genesis)
    (incoming outgoing : List Message)
    → IsNode sha node
    → IsUll (blocks_number node.bc)
    → IsUll (length (blockchain_to_bin node.bc))
    → All IsIncoming incoming
    → (node' : Node) × (start_gestion sha online difficulty g true
          (save_worker true file node)
          incoming
          outgoing
        ≡ some (some node'))
      × SameBlocks node.bc.blocks node'.bc.blocks
      × (node'.tl.transactions ≡ [])
      × IsNode sha node'
unfolding start_gestion save_worker
start_gestion-save_worker sha node file difficulty g incoming outgoing ok count fits fresh =
    let (bc, loaded, same) =
      load_blockchain-save_blockchain node.bc (IsReceived-IsBlock node.bc.blocks ok.received) count
        fits in
    let (chained, nonempty) =
      SameBlocks-IsChained sha node.bc.blocks bc.blocks same ok.chained ok.nonempty in
    (
      record {
        bc = bc;
        tl = init_list_txs;
        incoming = incoming;
        outgoing = outgoing;
        api_txs = [];
        mining_blocks = [];
      },
      rw loaded refl,
      same,
      refl,
      record {
        received = SameBlocks-received node.bc.blocks bc.blocks same ok.received;
        chained = chained;
        nonempty = nonempty;
        stored = init-IsStored;
        one_each = tt;
        messages = fresh;
        requests = tt;
        mined = tt;
      },
    )
