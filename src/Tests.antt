-- ===== src/Tests.antt =====
-- Concrete runs of the model.
pub mod Data
pub mod History
pub mod Accounts
pub mod Admin
pub mod Agent
pub mod Ledger
pub mod Services
pub mod Partners
pub mod Transfers
