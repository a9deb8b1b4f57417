-- ===== src/Protocol/Fix.antt =====
-- The FIX 4.4 protocol, `include/qf/protocol/fix/`: messages as lists of fields, the session, and
-- the gateway that cuts messages out of a TCP stream. A byte is a number, a text the list of its
-- bytes.
pub mod Text
pub mod Decimal
pub mod Tag
pub mod MsgType
pub mod ExecType
pub mod OrdStatus
pub mod Message
pub mod Session
pub mod Names
pub mod Gateway
pub mod Stream
