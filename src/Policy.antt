-- ===== src/Policy.antt =====
-- The decisions of sync-coordinator/domain, which take facts and touch no state.
pub mod Entry
pub mod Blob
pub mod BlobGc
pub mod Health
pub mod Flush
pub mod Tests
