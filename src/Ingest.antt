-- ===== src/Ingest.antt =====
-- Ingest (internal/ingest/ingest.go): the durable accept, the batch writer and the recovery, over any
-- write-ahead log that keeps the laws of `Journal`.
pub mod Journal
pub mod Ingestor
pub mod Durable
pub mod Flush
pub mod Accept
pub mod Runs
pub mod Recover
mod Samples
