-- ===== src/Lib.antt =====
-- Synch API: the sync coordinator of an end-to-end encrypted note vault.
--
-- One coordinator owns one vault. Its SQLite database holds the current entries, their saved
-- versions, the records of the ciphertext objects (blobs) and one row of coordinator state. Clients
-- stage blobs, commit batches of mutations that name them, and pull the entries above the cursor
-- that they have seen; garbage collection and repair retire blobs that nothing names any more.
--
-- Prelude.antt: the libraries' names passed on, Boolean tests, lists, and strings (`===`,
--   truthiness, `trim`).
-- Policy.antt, Policy/: src/sync-coordinator/domain. decideEntryMutation, decideBlobStage,
--   decideBlobCollection and the others keep their names, in snake case; `null` is `none`.
-- Store.antt, Store/: src/db/do/index.ts and src/sync-coordinator/adapters/outbound/sqlite. A table
--   is the list of its rows and each SQL statement is the function that it denotes on that list.
--   Store/Liveness and Store/Sizes hold the lemmas on blob states and sizes.
-- Commit.antt, Commit/: src/sync-coordinator/application/services/mutation-service.ts. Batch is the
--   transaction of commitMutations, one function for each part of the loop's body; Live,
--   Records, Round, Loop, Cursor, Retry and Total prove what it keeps. Spec states what a batch does to the documents
--   that a client sees, and Refines relates the transaction to it.
-- Blobs.antt, Blobs/: src/sync-coordinator/application/services/blob-record-operations.ts, with the
--   services around it.
-- Restore.antt, Restore/: restoreEntryVersions of src/sync-coordinator/application/services/
--   entry-service.ts (Batch), with Places and Settles on the places of its answers.
-- Repair.antt, Repair/: src/sync-coordinator/application/services/vault-service.ts: pauses (Pause) and
--   the repair of stale uploads (Runs), with Cleans on what it leaves.
-- Access.antt, Access/: src/sync-coordinator/application/services/sync-access-service.ts (Service) with
--   the table of adapters/outbound/sqlite/sync-access-store.ts (Revocations). Blocks, Sets and Uses
--   hold the lemmas on revocations over time, and Sockets those on the sockets that are closed. What
--   follows the reading of a snapshot runs at one time.
-- Gc.antt, Gc/: src/sync-coordinator/application/services/blob-gc-service.ts (Runs) with the queries
--   of adapters/outbound/sqlite/blob-gc-queries.ts (Queries). Takes, Clears, Covers and Arms hold the
--   lemmas on what a run takes, on what it leaves, and on when the next one is; Keeps those on the
--   invariants of the database.
-- History.antt, History/: listEntryStates of src/sync-coordinator/application/services/
--   entry-service.ts with its query. Pages holds the definitions; Order, Pull and Continues the
--   lemmas on ordered tables and pages, and Ranges those on requests and totals.
-- Maintenance.antt, Maintenance/: src/sync-coordinator/adapters/outbound/scheduler (Jobs, Drain, with
--   Delay and Armed on them) and src/sync-coordinator/application/services/
--   health-service.ts (Summary, with Planned on it). The loop of `drain` runs at most sixteen jobs,
--   as in the source, so its bound is the program's own; its handlers are arguments.
-- Vault.antt, Vault/: the transactions of all services as one step relation on the database, and the
--   turns that requests take (Steps): deleteBlob takes two, so that others may come between its check
--   and its deletion, and src/sync-coordinator/adapters/outbound/sqlite/storage-lifecycle.ts purges
--   the tables. Accounts, Reach, Log and Growth say what holds in the states that are reached.
-- PluginVersion.antt, PluginVersion/: src/plugin-version/policy.ts (Policy, where the message of an
--   update, a constant, is left out, and numbers are as `Number` reads them below 2^53), with Prints
--   and Order on versions that are written out.
-- Subscription.antt, Subscription/: src/subscription/domain/policy.ts (Plans, Access), with Answers on
--   the access that a subscription gives.
--
-- Numbers are natural: times in milliseconds, sizes, cursors and revisions are integers that the
-- program keeps below 2^53 and that its message schemas take as non-negative. A subtraction of the
-- source that could fall below zero is written as the sum that it is compared with, and the
-- difference of versions as an integer with a sign. A throw inside a
-- transaction is an error value, after which the caller keeps the database that it had: SQLite
-- rolls the transaction back. Every loop is structural recursion on a list or a string, so no
-- fuel is used, but for the sixteen rounds of `drain`.
--
-- Parameters: the object store that holds the ciphertext (R2, S3 or a disk) answers through
-- arguments; `crypto.randomUUID` is a supply of ids; the clock is an argument.
-- Not modelled: message texts and logging, the HTTP and websocket adapters, the D1 services (vaults,
-- sharing, billing, authentication), the object stores, and the web client.
pub mod Prelude
pub mod Policy
pub mod Store
pub mod Commit
pub mod Blobs
pub mod Gc
pub mod Repair
pub mod Access
pub mod Restore
pub mod PluginVersion
pub mod Subscription
pub mod Vault
pub mod History
pub mod Maintenance
