-- ===== src/Blobs.antt =====
-- src/sync-coordinator/application/services: the services that stage, retire and collect blobs.
pub mod Records
pub mod Accounting
pub mod Staging
pub mod Live
pub mod Service
pub mod Collect
pub mod Tests
