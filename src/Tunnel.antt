-- ===== src/Tunnel.antt =====
-- The forwarded ports (src/tunnel).
pub mod Rules
