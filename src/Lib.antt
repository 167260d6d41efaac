-- ===== src/Lib.antt =====
-- The payment processor "bicycle": deposits and withdrawals of TON and of jettons.
--
-- The program reads the blocks of one shard of the blockchain, finds in them what the wallets of the
-- service did, saves it in a PostgreSQL database together with the block, and notifies the merchant. Two
-- more loops send withdrawals from the hot wallet and mark messages that were lost. All of them meet in
-- the database: a request is saved by the API, sent in a batch by the withdrawal processor, settled by
-- the block scanner, or released again by the expiration.
--
-- Parts, files and sources:
-- Models (Conversions, Records): core/models.go. An address is its 32 bytes as a number below 256 ^ 32.
-- Db (Schema, AddressBook, Wallets, External, Internal, InternalTasks, ServiceRequests, Incomes, Tasks, Blocks,
--   Reports): db/db.go over deploy/db/01_init.up.sql. A table is the list of its rows, a statement a
--   function on the database, a unique constraint a test that ends in an error, and a transaction that
--   fails gives back the database it began with. The children of External follow external withdrawals
--   over all histories of statements: `Step` is one committed statement or transaction, `Reach` a
--   history, and a batch is of requests that wait, as the query of `Tasks` returns them. A query with
--   joins, groups and an order is a function on the rows of the tables. `Saves` are the wallets that a
--   process saves, and Restart compares its book with the one that is loaded from the tables.
-- Scanner (Tlb, Decode, JettonDeposit, TonDeposit, HotWallet, Block): core/block_scanner.go, a
--   function for each handler. `process_block` is `processBlock`: from the ids of the transactions to
--   the events, their save and the notifications. `Readings` and `Carried` say by the messages alone what
--   a jetton deposit takes in and gives out and whom a batch pays, which the handlers are compared with.
-- Tracker: blockchain/shard_tracker.go, `NextBlock` and the loading of batches of shard blocks.
-- Processor (Messages, Balances, Build, Cold, Round, Start): core/withdrawal_processor.go with the messages of
--   core/wallets.go and core/proxy.go: the batch of one round, the withdrawals to the cold wallet, and
--   the rounds of the three loops on the database, each with the queries and statements that it runs.
--   `Start` is `InitWallets`, which finds or saves the hot wallets.
-- Api (Types, Middleware, Attempt, Context, Convert, Withdrawals, Addresses, Incomes, Routes, Postgres):
--   api/handlers.go and api/middleware.go. A handler takes a request and the state to the new state and
--   a response; a handler that may answer early is an `Attempt`. `Storage` and `Blockchain` are the
--   interfaces of the source, `Library` what the handlers call of libraries, and `postgres` gives a
--   storage by the database and the address book. `serve` is the server with all its routes.
-- Blockchain (Retry, Wallets, Transactions, Trust, Queries): blockchain/blockchain.go.
-- System (Blocks, Api, Served, Runs): all components on one database. An `Action` is a request that is
--   served, a block that is saved or a round of a processor, and `Runs` the states that they lead to.
-- Config: config/config.go, the parsing of the cutoffs and the checks of `GetConfig`.
-- Tests: runs on concrete data.
--
-- Go's results with an error are `Result`; `log.Fatalf` and a panic are errors too, which end the
-- process. `*big.Int` is ℤ over the native numbers. Parameters stand for what the repository only calls:
-- the decoders of tonutils and tongo (`Codec`), the answers of lite servers (`Env`, `Network`, the
-- arguments of the tracker), random numbers, the clock, the order in which Go reads a map, the
-- notificators, and the outcome of a commit.
--
-- Fuel: `get_shard_blocks` takes one unit for each block on the way down to the last known one, and the
-- number of the first block plus one is enough. `fetch_pages` takes one for each page of a block, and the
-- number of its entries plus one is enough, since no page but the last is empty. `search` counts down the ids that are left below the largest uint32, which
-- is the bound of the source's own loop; `retry` counts the calls that are allowed. `next_block` recurs on the answers for the newest
-- master block, and the other loops on their lists.
--
-- Not modelled: amounts of requests with a fraction, which the code cuts to an integer when it sends them
-- (the model's amounts are integers), the gap that a failed insert leaves in the ids of requests, the
-- redirects of unclean paths, the order that SQL gives to incomes with the same logical time (the model
-- has one, and nothing is proved of it), a database connection that fails between statements, the log and the audit output, the
-- metrics, the sleeping of the loops, retries of a server that is not ready (the answers are those
-- after them), the proofs of blocks, the connection and its emulators, DNS records, the generation
-- of wallets, and the commands: they walk data of libraries that are not part of the repository. In `Runs` a
-- round of a processor is one action, with everything that it does to the database, and a round that
-- ends the process (`log.Fatalf`) is not followed: what it left in the database is not among the
-- states. Outside `get_config` the allowed lag of the blockchain is the default of config/config.go, 40
-- seconds. The task lists of `build_withdrawal_messages` are arguments; `build_from_queries` takes
-- them from the database.
pub mod Prelude
pub mod Models
pub mod Db
pub mod Scanner
pub mod Tracker
pub mod Processor
pub mod Api
pub mod Blockchain
pub mod System
pub mod Config
pub mod Tests
