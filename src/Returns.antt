-- ===== src/Returns.antt =====
-- Returned goods: authorisation, receipt, quarantine, and what becomes of them.
pub mod Item
pub mod Rma
pub mod Quarantine
pub mod UseCases
mod Tests
