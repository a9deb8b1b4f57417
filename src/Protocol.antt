-- ===== src/Protocol.antt =====
-- The wire protocol: include/qf/protocol and src/protocol.
pub mod Wire
pub mod Messages
pub mod Encoder
pub mod Validator
pub mod Batcher
pub mod FrameParser
pub mod Sequence
pub mod Fix
