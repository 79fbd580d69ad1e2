-- ===== src/Transfer.antt =====
-- Stock transfers between two locations: the aggregate, and the use cases that move the stock.
pub mod Entity
pub mod UseCases
mod Tests
