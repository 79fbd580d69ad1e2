-- ===== src/Stock.antt =====
-- Stock of one article at one location: amounts with a unit, and the aggregate `InventoryItem`.
pub mod Quantity
pub mod Sku
pub mod Item
pub mod Repository
pub mod Capacity
pub mod UseCases
pub mod Count
pub mod Shelves
mod Tests
