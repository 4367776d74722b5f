-- ===== src/Native.antt =====
-- src/native.rs: the Native TCP protocol.
pub mod Channel
pub mod Value
pub mod Request
pub mod Response
