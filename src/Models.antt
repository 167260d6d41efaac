-- ===== src/Models.antt =====
-- core/models.go: addresses, events and the records that the components exchange.
pub mod Conversions
pub mod Records
unfoldable pub use Conversions.*
unfoldable pub use Records.*
