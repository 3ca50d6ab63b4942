-- ===== src/Gc.antt =====
-- Garbage collection of blobs: src/sync-coordinator/application/services/blob-gc-service.ts with
-- src/sync-coordinator/adapters/outbound/sqlite/blob-gc-queries.ts.
pub mod Queries
pub mod Runs
pub mod Keeps
pub mod Takes
pub mod Covers
pub mod Arms
pub mod Clears
mod Tests
