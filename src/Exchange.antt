-- ===== src/Exchange.antt =====
-- The in-memory exchange: src/exchange.
pub mod Order
pub mod Pool
pub mod Index
pub mod Levels
pub mod Book
pub mod Protocol
pub mod Journal
pub mod Engine
pub mod ItchParser
