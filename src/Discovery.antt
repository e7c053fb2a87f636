-- ===== src/Discovery.antt =====
-- Finding a device (src/discovery).
pub mod ShortIds
