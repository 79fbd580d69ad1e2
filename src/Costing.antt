-- ===== src/Costing.antt =====
-- Cost layers and the strategies that price and consume them.
pub mod Layer
pub mod Sort
pub mod Strategy
pub mod Repository
pub mod Service
mod Tests
