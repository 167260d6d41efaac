-- ===== src/Tests.antt =====
-- Runs of the models on concrete data, and the theorems at concrete inputs.
pub mod Withdrawals
pub mod Blocks
pub mod Batches
pub mod Shards
pub mod Requests
pub mod Network
pub mod Configurations
pub mod Restarts
