-- ===== src/Examples/Data.antt =====
-- A digest, two transactions, a chain of two blocks and a node.
use tek.Prelude.{ℕ, zero, suc, ◌%◌, refl, List, [], ◌∷◌, arith, length, replicate, All}
use tek.Bytes.{IsByte, IsText}
use tek.Hash.{Sha, IsHash, digest-IsHash}
use tek.Transaction.{Transaction, TransactionsList, init_list_txs, get_size_of_txsbin}
use tek.Transaction.Binary.{IsTransaction}
use tek.Transaction.Store.{IsStored}
use tek.Block.{Block}
use tek.Block.Decode.{IsReceived}
use tek.Block.HashText.{hash_text}
use tek.Blockchain.{Blockchain}
use tek.Node.{Node}
use tek.Node.Invariant.{IsMined, IsNode}
use tek.Transaction.Printed.{AllPrint, prints_small}

pub zeros-IsByte : (n : ℕ) → All IsByte (replicate n 0)
zeros-IsByte zero = tt
zeros-IsByte (suc n) = (omega arith, zeros-IsByte n)

-- The length of the text, and 31 zeros.
abbrev pub sha0 : Sha
sha0 = record {
  digest = λ s. (length s % 256) ∷ replicate 31 0;
  length-digest = λ s. refl;
  digest-IsByte = λ s. (omega arith, zeros-IsByte 31);
}

pub zero-IsHash : IsHash (replicate 32 0)
zero-IsHash = record { size = refl; bytes = zeros-IsByte 32 }

abbrev pub alice : List ℕ
alice = b'A' ∷ []

abbrev pub bob : List ℕ
bob = b'B' ∷ []

pub alice-IsText : IsText alice
alice-IsText = ((omega arith, omega arith), tt)

pub bob-IsText : IsText bob
bob-IsText = ((omega arith, omega arith), tt)

abbrev pub first_money : Transaction
first_money = record { sender = []; receiver = alice; amount = 100; time = 3 }

abbrev pub payment : Transaction
payment = record { sender = alice; receiver = bob; amount = 5; time = 7 }

pub first_money-IsTransaction : IsTransaction first_money
unfolding get_size_of_txsbin
first_money-IsTransaction = record {
  sender = tt;
  receiver = alice-IsText;
  sender_size = omega arith;
  receiver_size = omega arith;
  amount = omega arith;
  time = omega arith;
  total = omega arith;
}

pub payment-IsTransaction : IsTransaction payment
unfolding get_size_of_txsbin
payment-IsTransaction = record {
  sender = alice-IsText;
  receiver = bob-IsText;
  sender_size = omega arith;
  receiver_size = omega arith;
  amount = omega arith;
  time = omega arith;
  total = omega arith;
}

abbrev pub money_list : TransactionsList
money_list = record { transactions = first_money ∷ []; capacity = 1 }

abbrev pub payment_list : TransactionsList
payment_list = record { transactions = payment ∷ []; capacity = 2 }

pub money_list-IsStored : IsStored money_list
money_list-IsStored = record {
  fits = omega arith;
  room = omega arith;
  each = (first_money-IsTransaction, tt);
}

pub payment_list-IsStored : IsStored payment_list
payment_list-IsStored = record {
  fits = omega arith;
  room = omega arith;
  each = (payment-IsTransaction, tt);
}

abbrev pub genesis : Block
genesis = record {
  previus_hash = replicate 32 0;
  tl = money_list;
  block_hash = replicate 32 0;
  proof = 1;
  time = 3;
}

-- The second block before it is hashed.
abbrev pub unhashed : Block
unhashed = record {
  previus_hash = replicate 32 0;
  tl = payment_list;
  block_hash = replicate 32 0;
  proof = 2;
  time = 9;
}

abbrev pub second : Block
second = record unhashed { block_hash = sha0.digest (hash_text sha0 unhashed) }

pub genesis-IsReceived : IsReceived genesis
genesis-IsReceived = record {
  block = record {
    previus_size = refl;
    hash_size = refl;
    proof = omega arith;
    time = omega arith;
    stored = money_list-IsStored;
    count = omega arith;
  };
  previus = zero-IsHash;
  hash = zero-IsHash;
}

pub second-IsReceived : IsReceived second
second-IsReceived = record {
  block = record {
    previus_size = refl;
    hash_size = refl;
    proof = omega arith;
    time = omega arith;
    stored = payment_list-IsStored;
    count = omega arith;
  };
  previus = zero-IsHash;
  hash = digest-IsHash sha0 _;
}

pub money-AllPrint : AllPrint (first_money ∷ [])
money-AllPrint = (prints_small first_money (omega arith) (omega arith), tt)

pub payment-AllPrint : AllPrint (payment ∷ [])
payment-AllPrint = (prints_small payment (omega arith) (omega arith), tt)

pub second-IsMined : IsMined second
second-IsMined = record { received = second-IsReceived; printed = payment-AllPrint }

abbrev pub short_chain : Blockchain
short_chain = record { blocks = genesis ∷ [] }

abbrev pub long_chain : Blockchain
long_chain = record { blocks = genesis ∷ second ∷ [] }

-- A node with a payment that waits, and a message and a request to come.
abbrev pub node0 : Node
node0 = record {
  bc = short_chain;
  tl = init_list_txs;
  incoming = [];
  outgoing = [];
  api_txs = payment ∷ [];
  mining_blocks = second ∷ [];
}

pub node0-IsNode : IsNode sha0 node0
node0-IsNode = record {
  received = (genesis-IsReceived, tt);
  chained = tt;
  nonempty = tt;
  stored = record { fits = omega arith; room = omega arith; each = tt };
  one_each = tt;
  messages = tt;
  requests = (payment-IsTransaction, tt);
  mined = (second-IsMined, tt);
}
