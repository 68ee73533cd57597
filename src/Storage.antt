-- ===== src/Storage.antt =====
-- The storage backends: src/storage.rs.
pub mod Map
pub mod Scan
pub mod Crc
pub mod File
pub mod Log
pub mod Recovery
pub mod Sizes
pub mod Reopen
pub mod Durable
pub mod Snapshot
mod Runs
pub mod Reads
pub mod Compact
