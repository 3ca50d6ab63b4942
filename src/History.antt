-- ===== src/History.antt =====
-- src/sync-coordinator/application/services/entry-service.ts: what devices pull.
pub mod Pages
pub mod Order
pub mod Pull
pub mod Continues
pub mod Ranges
pub mod Tests
