-- ===== src/Processor.antt =====
-- core/withdrawal_processor.go: what the hot wallet sends. `Messages` are the messages it sends, `Balances`
-- the accounting of one batch, `Build` the batch, `Cold` the withdrawals to the cold wallet, `Round` the loops, and
-- `Start` (core/wallets.go) the hot wallets at the start.
pub mod Messages
pub mod Balances
pub mod Build
pub mod Cold
pub mod Charges
pub mod Fees
pub mod Solvency
pub mod Bounds
pub mod Round
pub mod Start
