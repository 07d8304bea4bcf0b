-- ===== src/Storage.antt =====
-- internal/storage: the log-structured storage engine.
pub mod File
pub mod Record
pub mod Batches
pub mod Samples
pub mod Index
pub mod TimeIndex
pub mod Segment
pub mod Log
pub mod Retention
