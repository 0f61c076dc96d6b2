-- ===== src/Strategy.antt =====
-- The strategies' side: src/strategy.
pub mod Arbitrate
pub mod Signal
pub mod OrderFlow
pub mod BookImbalance
