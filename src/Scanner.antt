-- ===== src/Scanner.antt =====
-- core/block_scanner.go: from the transactions of a block to the events that the database applies.
-- `Tlb` and `Decode` read messages; each kind of wallet has a module; `Block` puts them together.
pub mod Tlb
pub mod Decode
pub mod JettonDeposit
pub mod TonDeposit
pub mod HotWallet
pub mod Block
