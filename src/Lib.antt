-- ===== src/Lib.antt =====
-- Tek: a blockchain node. Its threads share a chain of blocks, a list of pending transactions and
-- queues of messages. A thread mines blocks; the main loop takes messages from the network,
-- transactions from the HTTP API and mined blocks, checks them, and sends on what it accepts.
--
-- The parts of the program (under Projet/) and the files that model them:
--   Hash          Hash/sha256.c: `sha256` and `sha256ToAscii`. The digest itself is a parameter, `Sha`.
--   Mining        Noeud_de_minage/minage.c: one candidate, the test on its hash, `testproof`.
--   Mining.Threads  the same file: `thread_mining` and `mine_from_string`. A schedule says which
--                 thread makes its next step; the loop's test and its body are two steps.
--   Transaction   Block/transactions.c: lists of transactions, comparison, binary format, text.
--   Block         Block/block.c: `getHash`, the Merkle hash, binary format. Block.Seal is how
--                 `createGenesis` and `mining` give a block its proof and its hash.
--   Blockchain    Block/blockchain.c: `addBlock`, `checkBlockchain`, balances, the check of pending
--                 transactions, binary format, the saved file. Blockchain.Genesis is `createGenesis`.
--   Json          the functions named …ToJson of those three files, with the sizes of their buffers.
--   Message       Network/message.c.
--   Queue         Tools/queue/queue.c, on an explicit heap; Queue.Shared is shared_queue.c, as threads
--                 that come to one semaphore call after another, and Queue.Shared.Drain a thread that
--                 is alone with a queue, and `shared_queue_destroy`.
--   Node          Noeud_de_gestion/gestion.c: the shared state, the main loop; Node.Miner has a round
--                 of `mining` in two steps, and `send_data`; Node.Reach lets all these
--                 threads take steps in any order; Node.Start has the begin of `gestion`, and
--                 `save_worker`; Node.Relay is about what one node sends and another gets.
--   Network.Clients    Network/network_tools.c: the list of known nodes, on an explicit heap.
--   Network.Discovery  the same file: a round of `sendNetwork`, and `addServerFromMessage`.
--   Network.Listing    the same file: `ServerListToJSON`.
--   Network.Receive    Network/server.c: `read_thread`.
--   Network.Send       Network/client.c: `Send`, `SendMessageForOneClient` and `SendMessage`; with
--                      `SendOutGoinMessages` of network.c.
--   Network.Listen     Network/server.c: the thread `Server`.
--   Network.Start      Network/network.c: `initServer` and `Network`, and `freeServer`.
--   Api           API/API.c: `findPath`, `findInfoTxs` and the answer of `worker`; Api.Request,
--                 Api.Resend and Api.Serve have the rest of `worker`, and Api.Accept has `API`.
--   Program       main.c: `ProcessingArgs` and the choice of `main`; Program.Launch is `LaunchTEK`.
-- Bytes has what C itself gives: little-endian words, `memcpy` into a buffer, `memcmp`, `sprintf` of
-- numbers. Memory has the
-- heap of the lists. Prelude has the shared names and list lemmas. Examples has the data of the tests.
--
-- Correspondence. A structure is a record with the fields of the C structure, a C string the bytes
-- before its NUL, `bin + k` the list without its first k bytes. A run that reads or writes outside
-- an object, or that ends the program, is `none`; within the assumptions below, each theorem that a
-- run is `some` shows that it does neither. Numbers of type ull_t are below 2 ^ 64 and wrap where
-- the code computes with them; a time_t is its bit pattern, compared as a signed number. A function
-- that changes an object returns the changed object. A function that walks a list recurses on the
-- list.
--
-- Bounds and fuel. A number printed with %llu has at most 20 digits, which is the fuel of `decimal`
-- and `len_loop`. `queue_empty` has fuel for the elements, and the loops over the known nodes have
-- fuel for one more than there are. A loop over the answers of the system recurses on them, and is
-- `none` when it still waits at their end. A loop of `read_thread` has fuel for the bytes that it
-- is to read. The array `str` of `thread_mining` has 256 bytes. `slack` counts the bytes of stack
-- behind the array of `testproof` that may be overwritten unharmed; 0 is what the source provides.
-- `behind` is what memory holds behind a string; nothing is what the source provides.
--
-- Assumptions. Allocation succeeds, sizes of objects in memory do not wrap, the machine is
-- little-endian with 8-byte words. The digest has 32 bytes. `memcmp` reads no further than the
-- first difference, which C does not promise. The thread steps of Node hold their mutexes
-- throughout; each of the three parts of a round of `gestion` is a step. What the system answers is
-- a parameter: whether a node can be reached, in what pieces a connection delivers its bytes, how
-- many bytes a call of `send` takes, the time, the number of cores. `LaunchTEK` sees the status
-- that `Network` leaves, and not one that is `ONLINE` only until a first node cannot be added.
-- Connections deliver in the order in which they were accepted.
--
-- Not modelled: the rounds of SHA-256 (a library), key generation (OpenSSL), printing to
-- the terminal, and the release of memory other than that of the elements of lists and of queues.
pub mod Prelude
pub mod Bytes
pub mod Memory
pub mod Hash
pub mod Mining
pub mod Transaction
pub mod Block
pub mod Blockchain
pub mod Json
pub mod Queue
pub mod Message
pub mod Network
pub mod Api
pub mod Program
pub mod Node
pub mod Examples
