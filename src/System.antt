-- ===== src/System.antt =====
-- The service as a whole: the API, the block scanner and the three processors over one database, each of them acting
-- at any time (cmd/processor/main.go starts them as goroutines; a statement or a transaction is one action of the
-- database).
pub mod Api
pub mod Blocks
pub mod Served
pub mod Runs
