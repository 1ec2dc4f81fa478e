-- ===== src/Net.antt =====
-- net.rs and net/: the Redis protocol.
pub mod Frame
pub mod Connection
pub mod Command
pub mod Trip
pub mod Server
pub mod Client
pub mod Listener
mod Tests
