-- ===== src/Db.antt =====
-- db/db.go over the tables of deploy/db/01_init.up.sql. The address book is the process's copy of the
-- wallet tables; the withdrawals outside and inside have a module each, and a block's events are
-- applied by `Blocks`.
pub mod Schema
pub mod AddressBook
pub mod External
pub mod Internal
pub mod Incomes
pub mod Tasks
pub mod Blocks
pub mod Wallets
pub mod Reports
pub mod ServiceRequests
pub mod InternalTasks
