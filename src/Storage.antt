-- ===== src/Storage.antt =====
-- Storage (src/storage): the names and the files of a transfer.
pub mod RelativePath
pub mod Disk
pub mod Download
