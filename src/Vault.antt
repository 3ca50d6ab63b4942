-- ===== src/Vault.antt =====
-- The vault's database as a state machine: src/sync-coordinator/application/services.
pub mod Steps
pub mod Accounts
pub mod Reach
pub mod Log
pub mod Growth
pub mod Tests
