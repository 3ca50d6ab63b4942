-- ===== src/Commit.antt =====
-- src/sync-coordinator/application/services/mutation-service.ts.
pub mod Batch
pub mod Live
pub mod Records
pub mod Round
pub mod Loop
pub mod Cursor
pub mod Total
pub mod Retry
pub mod Spec
pub mod Refines
pub mod Tests
