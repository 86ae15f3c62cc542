-- ===== src/Wal.antt =====
-- The write-ahead log (internal/wal/wal.go): its records as bytes, the scan that recovers them, and
-- the log itself as a state with its operations.
pub mod Words
pub mod Record
pub mod Scan
pub mod Recovery
pub mod Reopen
pub mod Log
pub mod Chain
pub mod Append
pub mod Accept
pub mod Checkpoint
pub mod Samples
