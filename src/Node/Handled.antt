-- ===== src/Node/Handled.antt =====
-- What a message or a mined block leaves of what holds of a node.
use tek.Prelude.{
  some-eq, ℕ, ◌≡◌, refl, ap, ◌∙◌, sym, Bool, true, false, not, Option, some, List, [], ◌∷◌, ◌++◌,
  arith, ◌>>=◌, >>=-eq-some, along, if◌then◌else◌, All, All-append, Bool-cases, inl, inr, length,
  length-append,
}
use mathlib.Core.Path.{subst}
use tek.Bytes.{IsByte, IsUll}
use tek.Hash.{Sha}
use tek.Transaction.{bin_to_txs}
use tek.Transaction.Decode.{bin_to_txs-IsTransaction}
use tek.Block.{Block}
use tek.Block.Decode.{IsReceived}
use tek.Blockchain.{Blockchain, bin_to_blockchain, blockchain_to_bin, check_blockchain}
use tek.Blockchain.Chain.{
  IsChained, check_blockchain-IsChained, check_blockchain-AllPrint, follows, follows-Follows,
  add_block-follows, Chained-append, last_of,
}
use tek.Blockchain.Decode.{bin_to_blockchain-IsReceived}
use tek.Message.{Message, type_blockchain}
use tek.Message.Binary.{create_message-whole}
use tek.Node.{Node, accept_txs, accept_bc, handle_message, handle_mined}
use tek.Node.Chains.{IsNonempty}
use tek.Node.Invariant.{
  IsIncoming, IsNode, Steps, Steps-same, IsMined, IsMined-IsSealed, received-IsCheckable,
  last-IsHash, accept_txs-Steps, accept_bc-Steps,
}

-- The message that sends a chain.
abbrev pub chain_message : Blockchain → Message
chain_message bc = record {
  type = type_blockchain;
  size_data = length (blockchain_to_bin bc);
  payload = blockchain_to_bin bc;
}

module _ (sha : Sha) (node : Node) (ok : IsNode sha node) where
  if-Steps :
      (b : Bool) {x y : Option Node} {node' : Node}
      → (x ≡ some node' → Steps sha node node')
      → (y ≡ some node' → Steps sha node node')
      → (if b then x else y) ≡ some node'
      → Steps sha node node'
  if-Steps false f g e = g e
  if-Steps true f g e = f e

  -- The three kinds of message.
  pub same-Steps : (node' : Node) → some node ≡ some node' → Steps sha node node'
  same-Steps node' e = along (Steps sha node) e (Steps-same sha node ok)

  txs-Steps :
      (bin : List ℕ) (node' : Node)
      → All IsByte bin
      → IsUll (length bin)
      → (bin_to_txs bin >>= accept_txs node) ≡ some node'
      → Steps sha node node'
  txs-Steps bin node' bytes ull e =
      let (t, e1, k) = >>=-eq-some (bin_to_txs bin) _ e in
      let good = (bin_to_txs-IsTransaction bin t bytes ull e1).0 in
      let (next, run, steps) = accept_txs-Steps sha node ok t good in
      along (Steps sha node) (sym run ∙ k) steps

  accepted-IsChained :
      (bc : Blockchain)
      → All IsReceived bc.blocks
      → check_blockchain sha bc ≡ some false
      → IsChained sha bc.blocks
  accepted-IsChained bc received e =
      let printed = check_blockchain-AllPrint sha bc e in
      let (bad, run, iff) =
        check_blockchain-IsChained sha bc (received-IsCheckable bc.blocks received printed) in
      iff.0 (some-eq (sym run ∙ e))

  checked-Steps :
      (bc : Blockchain) (node' : Node)
      → All IsReceived bc.blocks
      → (check_blockchain sha bc >>= λ res. if not res then accept_bc node bc else some node)
        ≡ some node'
      → Steps sha node node'
  checked-Steps bc node' received e =
      let (bad, run, k) = >>=-eq-some (check_blockchain sha bc) _ e in
      elim (Bool-cases bad) [
        | inl wrong ↦ same-Steps node' (rw wrong at k)
        | inr good ↦
            let chained = accepted-IsChained bc received (rw good at run) in
            let (next, ran, steps) = accept_bc-Steps sha node ok bc received chained in
            along (Steps sha node) (sym ran ∙ (rw good at k)) steps
      ]

  bc-Steps :
      (bin : List ℕ) (node' : Node)
      → All IsByte bin
      → IsUll (length bin)
      → (bin_to_blockchain bin >>= λ bc.
          check_blockchain sha bc >>= λ res. if not res then accept_bc node bc else some node)
        ≡ some node'
      → Steps sha node node'
  bc-Steps bin node' bytes ull e =
      let (bc, e1, k) = >>=-eq-some (bin_to_blockchain bin) _ e in
      checked-Steps bc node' (bin_to_blockchain-IsReceived bin bc bytes ull e1).0 k

  pub handle_message-Steps :
      (m : Message) (node' : Node)
      → IsIncoming m
      → handle_message sha node m ≡ some node'
      → Steps sha node node'
  unfolding handle_message
  handle_message-Steps m node' good e =
      if-Steps _ (txs-Steps m.payload node' good.bytes good.size)
        (if-Steps _ (bc-Steps m.payload node' good.bytes good.size) (same-Steps node')) e

  -- A chain that grew by a block that follows the last one, and the message that sends it.
  Steps-added :
      (first : Block) (bs : List Block) (b : Block) (out : List Message)
      → node.bc.blocks ≡ first ∷ bs
      → IsReceived b
      → follows sha (last_of first bs) b ≡ true
      → Steps sha node
          (record node { bc = record { blocks = first ∷ (bs ++ b ∷ []) }; outgoing = out })
  Steps-added first bs b out e good f =
      let received = subst (All IsReceived) e ok.received in
      record {
        valid = record {
          received = (received.0, All-append IsReceived bs (b ∷ []) received.1 (good, tt));
          chained =
              Chained-append sha first bs b (subst (IsChained sha) e ok.chained)
                ((follows-Follows sha (last_of first bs) b).0 f);
          nonempty = tt;
          stored = ok.stored;
          one_each = ok.one_each;
          messages = ok.messages;
          requests = ok.requests;
          mined = ok.mined;
        };
        longer = omega (arith, length-append bs (b ∷ []), ap length e);
      }

  -- A block from the mining thread: the node adds it or drops it, and runs on.
  pub handle_mined-Steps :
      (b : Block)
      → IsMined b
      → (node' : Node) × (handle_mined sha node b ≡ some node') × Steps sha node node'
  unfolding handle_mined
  handle_mined-Steps b good = go node.bc.blocks refl
    where
      go :
          (blocks : List Block)
          → node.bc.blocks ≡ blocks
          → (node' : Node) × (handle_mined sha node b ≡ some node') × Steps sha node node'
      go [] e = absurd (subst IsNonempty e ok.nonempty)
      go (first ∷ bs) e =
          let sized = last-IsHash first bs (subst (All IsReceived) e ok.received) in
          let bc_eq : node.bc ≡ record { blocks = first ∷ bs } =
            ap (λ l. record { blocks = l }) e in
          let run = add_block-follows sha first bs b sized (IsMined-IsSealed b good) in
          let longer : Blockchain = record { blocks = first ∷ (bs ++ b ∷ []) } in
          let bin = blockchain_to_bin longer in
          let send = create_message-whole type_blockchain (length bin) bin refl in
          elim (Bool-cases (follows sha (last_of first bs) b)) [
            | inl fits ↦ (
              record node { bc = longer; outgoing = node.outgoing ++ chain_message longer ∷ [] },
              rw (bc_eq, run, fits, send) refl,
              Steps-added first bs b _ e good.received fits,
            )
            | inr unfit ↦ (node, rw (bc_eq, run, unfit) refl, Steps-same sha node ok)
          ]
