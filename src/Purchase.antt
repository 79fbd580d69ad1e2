-- ===== src/Purchase.antt =====
-- Orders from suppliers, and goods that go from an arrival to the orders that wait for them.
pub mod Order
pub mod CrossDock
mod Tests
