-- ===== src/Maintenance.antt =====
-- src/sync-coordinator/adapters/outbound/scheduler and application/services/health-service.ts.
pub mod Jobs
pub mod Drain
pub mod Delay
pub mod Armed
pub mod Summary
pub mod Planned
pub mod Tests
