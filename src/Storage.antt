-- ===== src/Storage.antt =====
-- storage.rs and storage/: the storage engine.
pub mod Bitcask
