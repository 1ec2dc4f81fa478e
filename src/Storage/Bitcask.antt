-- ===== src/Storage/Bitcask.antt =====
-- storage/bitcask.rs and storage/bitcask/: the engine.
pub mod Data
pub mod Config
pub mod Crates
pub mod Files
pub mod Stats
pub mod Log
pub mod Store
pub mod Recovery
pub mod Merge
pub mod Tasks
