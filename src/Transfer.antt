-- ===== src/Transfer.antt =====
-- The core of a file transfer (src/transfer, src/protocol/manifest.rs).
pub mod Bitmap
pub mod Chunker
pub mod Receiver
pub mod Manifest
pub mod FileName
