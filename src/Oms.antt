-- ===== src/Oms.antt =====
-- Order management: include/qf/oms and src/oms.
pub mod Types
pub mod Transitions
pub mod Journal
pub mod Manager
pub mod Validator
pub mod FillManager
