-- ===== src/Protocol.antt =====
-- internal/protocol.
pub mod Frame
pub mod Response
