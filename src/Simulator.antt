-- ===== src/Simulator.antt =====
-- The exchange simulator's own book and its matching engine.
pub mod Book
pub mod Matching
