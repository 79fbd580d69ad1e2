-- ===== src/Ledger.antt =====
-- The stock ledger: its entries, the repository that holds them, and the services that post to it.
pub mod Entry
pub mod Repository
pub mod Sales
pub mod Opening
mod Tests
