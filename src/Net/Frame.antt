-- ===== src/Net/Frame.antt =====
-- net/frame.rs: data, readers, the checker and the parser.
pub mod Data
pub mod Utf8
pub mod I64
pub mod Reader
pub mod Parse
pub mod Progress
pub mod Fuel
pub mod Agree
pub mod Extend
pub mod Stable
pub mod Decimal
pub mod Deeper
pub mod Total
pub mod Numbers
pub mod Reads
mod Tests
