-- ===== src/Net/Connection.antt =====
-- net/connection.rs: frames over a stream of bytes.
pub mod Write
pub mod Read
pub mod RoundTrip
