-- ===== src/Market.antt =====
-- The market's book on the trading side: src/market/book and src/core/memory.
pub mod Pool
pub mod Table
pub mod Book
pub mod Consumer
pub mod Walk
pub mod Lookup
pub mod Writes
pub mod FiniteMap
pub mod Erased
