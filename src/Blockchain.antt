-- ===== src/Blockchain.antt =====
-- blockchain/blockchain.go: the connection to the network.
pub mod Retry
pub mod Wallets
pub mod Trust
pub mod Transactions
pub mod Queries
