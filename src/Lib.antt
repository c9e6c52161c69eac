-- ===== src/Lib.antt =====
-- The core of the gny blockchain node (packages/): time and rewards, the transaction pool, the signing of
-- transactions, blocks, votes and proposes, the consensus state with its checks of blocks, the choice of
-- delegates, and the execution of transactions on the tables of the chain.
--
-- How the parts interact. A transaction is admitted by Core.Transactions: its id is checked against the
-- pool, the failed and the saved ones, its signature by Base.TransactionBase, its fee is taken, and its
-- contract runs on the tables of Contract.Ledger. A node whose turn it is (Core.Delegates) makes a block
-- of the pool's transactions (Core.BlocksHelper), signs it (Base.BlockBase), proposes it and collects
-- votes (Base.Consensus, Core.Votes) by the handlers of Core.Events; other nodes verify it (Core.Blocks).
-- Core.Processing runs a verified block on the tables, pays the delegates at the end of a round
-- (Core.Rounds), and makes it the last one. Below the tables, Orm.Session gives every read and write of a
-- row to Orm.Tracker, which caches the row (Orm.EntityCache, over one Orm.UniquedCache for each model) and
-- records the change (Orm.Changes), which is kept by version (Orm.Versions), to take back a contract that
-- fails. Orm.SmartDb puts the blocks and their histories on top; Core.Processing still has its own,
-- simpler chain for them.
--
-- The files and the code they model:
--   Prelude         shared names, Boolean tests, lists, integers, association maps, texts, and JavaScript's
--                   rounding of large numbers
--   Interfaces      packages/interfaces/src/index.ts, and results of calls that may throw
--   Utils           packages/utils/src: constants.ts, calculate-fee.ts, slots.ts, block-reward.ts,
--                   limit-cache.ts; calculateRound of packages/base/src/roundBase.ts
--   Pool            packages/transaction-pool/src/index.ts
--   Orm             packages/database-postgres/src: blockCache.ts (BlockCache), codeContract.ts (Entity),
--                   modelSchema.ts (Schema), uniquedCache.ts with defaultEntityUniqueIndex.ts and
--                   customCache.ts (UniquedCache), lruEntityCache.ts (EntityCache), basicEntityTracker.ts:
--                   its changes (Changes), the tracker (Tracker) and its history (Versions), and
--                   dbSession.ts (Session), smartDB.ts (SmartDb)
--   Base            packages/base/src: consensusBase.ts, transactionBase.ts, blockBase.ts; address.ts of
--                   packages/utils/src; Base.Platform holds what Node.js, sodium, bs58 and ip provide
--   Core            packages/main/src/core: StateHelper.ts (State), ConsensusHelper.ts (Votes),
--                   BlocksHelper.ts, delegates.ts, transactions.ts, and blocks.ts: verifyBlock (Blocks),
--                   applyRound with the bookkeeper (Rounds), processBlock (Processing), generateBlock,
--                   onReceivePropose and onReceiveVotes (Events)
--   Contract        packages/main/src/contract/basic.ts over Contract.Ledger, the rows that smartDB.ts and
--                   dbSession.ts of packages/database-postgres/src keep; contract/uia.ts and
--                   smartdb/balance-manager.ts (Assets)
--   Tests           a concrete platform and every theorem at concrete data
--
-- How the code is modelled. Names are those of the source in snake case. State that the source copies and
-- returns is passed from call to call; a throw, and a message that a contract returns, is `err`. Heights
-- and amounts, decimal strings in the source, are numbers; a balance is an integer, since the tables store
-- whatever a sum gives, and so is a time before the epoch. A Map, or an object used as one, is an
-- association list in insertion order. Cryptography and byte encodings are the fields of Platform; what a
-- theorem needs of them (a key pair accepts what it signs, hexadecimal text is read back) is a hypothesis
-- that the platform of Tests satisfies. The clock is an argument. The package lru-cache is the record Lru,
-- with the laws IsLru that hold of a cache below its maximum; the database is the record Database, which
-- says which rows there are and whether a list of changes is written; the hooks of smartDB.ts and its
-- inserts of blocks are the record Outside. A row is an association list of its properties, and a key, a
-- JSON text in the source, is the object that the text is of. The unique indexes of a model are taken to
-- have different first columns, which name them.
--
-- Fuel. The deletion loop of evitUntil gets one round for each height that is left; the shuffle of
-- generateDelegateList gets one outer round for each delegate, as each advances the index by one at least.
-- The loops of the tracker over versions get one round for each version between their ends, counted
-- beforehand, and the loop of rollbackBlock one for each height above its target, which is enough since it
-- stops at the target at the latest. All other loops are structural, getBlockSlotData's over the slots up
-- to its bound.
--
-- Not modelled: the handler of received blocks and the loading of blocks from peers; the HTTP interface,
-- the network, the command line and the client; Joi schemas; PostgreSQL and the text of queries; what an
-- LRU cache drops when it is full; the registration of issuers, and calls of issued assets by
-- Core.Transactions; a public key as raw bytes. A transaction's database savepoint is the tables at
-- beginContract, with a sender's row that was created before it, and a block's is the saved tables; the
-- caller keeps them after an error. The votes of an account, which the source reads from the database past
-- the cache, are those of the current tables.
pub mod Prelude
pub mod Utils
pub mod Interfaces
pub mod Pool
pub mod Orm
pub mod Base
pub mod Core
pub mod Contract
pub mod Tests
