-- ===== src/Api.antt =====
-- api/: the HTTP interface of the service.
pub mod Types
pub mod Middleware
pub mod Context
pub mod Convert
pub mod Attempt
pub mod Withdrawals
pub mod Addresses
pub mod Incomes
pub mod Routes
pub mod Postgres
