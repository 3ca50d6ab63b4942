-- ===== src/Store.antt =====
-- The coordinator's SQLite database and the stores over it
-- (src/sync-coordinator/adapters/outbound/sqlite, src/db/do/index.ts).
pub mod Rows
pub mod Entries
pub mod Versions
pub mod References
pub mod Blobs
pub mod Liveness
pub mod Sizes
pub mod State
