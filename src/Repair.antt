-- ===== src/Repair.antt =====
-- Pauses of a vault and its repair: src/sync-coordinator/application/services/vault-service.ts.
pub mod Pause
pub mod Runs
pub mod Cleans
mod Tests
