-- ===== src/Protocol.antt =====
-- The wire formats (src/protocol).
pub mod Frame
