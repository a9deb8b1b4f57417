-- ===== src/Tests.antt =====
-- Every theorem with hypotheses at a concrete input where they hold.
pub mod Books
pub mod Managers
pub mod Wires
pub mod Queues
pub mod Matches
pub mod Fills
pub mod Fix
pub mod Rings
pub mod Journals
