-- ===== src/Restore.antt =====
-- Restores of entry versions in a batch: restoreEntryVersions of
-- src/sync-coordinator/application/services/entry-service.ts.
pub mod Batch
pub mod Places
pub mod Settles
mod Tests
