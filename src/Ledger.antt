-- ===== src/Ledger.antt =====
-- The virtual ledger: its tables (app/models.py, sql/migration_004_repair_core_schema.sql), its atomic SQL
-- functions, and app/wallet_service.py, which calls them.
mod Models
pub mod Store
pub mod Payin
pub mod Payout
pub mod Transfer
pub mod Service
pub mod Links
pub use Models.*
pub use Store.{Exec, returned, raised, DbError, Message, Reply, failure, success}
