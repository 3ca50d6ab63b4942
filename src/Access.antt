-- ===== src/Access.antt =====
-- Who may sync: src/sync-coordinator/application/services/sync-access-service.ts with
-- src/sync-coordinator/adapters/outbound/sqlite/sync-access-store.ts.
pub mod Revocations
pub mod Service
pub mod Blocks
pub mod Sets
pub mod Uses
pub mod Sockets
mod Tests
