-- ===== src/Repair/Runs.antt =====
-- repairSyncState of src/sync-coordinator/application/services/vault-service.ts. The object store
-- answers for each blob whether its object could be deleted; while it does, other requests may change
-- the database, which `others` stands for, by the number of blobs that are left.
use synch_api.Prelude.{
  ℕ, ◌+◌, String, Bool, true, false, not, ◌||◌, Option, none, some, List, [], ◌∷◌, ltb, length, suc,
  if◌then◌else◌, is_some, or_else,
}
use synch_api.Policy.Blob.{is_stale_staged_blob_pause_reason}
use synch_api.Policy.Health.{staged_blob_stale_ms}
use synch_api.Store.Rows.{Blob, Database, Result, ok, ◌>>=◌}
use synch_api.Store.Blobs.{list_stale_staged_blobs}
use synch_api.Store.State.{
  SyncPauseState, read_sync_pause, clear_sync_pause, vault_state_exists_for,
}
use synch_api.Blobs.Records.{
  DeleteOutcome, missing, referenced, deleted, delete_unreferenced_staged_blob,
}
use synch_api.Gc.Runs.{Vault, read_next_gc_at, schedule_now}

abbrev pub max_repairable_stale_staged_blobs : ℕ
max_repairable_stale_staged_blobs = 100

pub data SyncRepairStatus : Type 0 where
  repaired not_paused manual_repair_required : SyncRepairStatus

pub data SyncRepairIssue : Type 0 where
  unsupported_pause_reason referenced_staged_blob : SyncRepairIssue
  blob_storage_delete_failed repair_limit_exceeded : SyncRepairIssue

pub record SyncRepairResult : Type 0 where
  pub status : SyncRepairStatus
  pub deleted_staged_blob_count : ℕ
  pub remaining_stale_staged_blob_count : ℕ
  pub next_gc_at : Option ℕ
  pub pause : Option SyncPauseState
  pub issue : Option SyncRepairIssue

abbrev empty_repair_result : Option SyncPauseState → Option ℕ → SyncRepairStatus → SyncRepairResult
empty_repair_result pause next_gc_at status = record {
  status = status;
  deleted_staged_blob_count = 0;
  remaining_stale_staged_blob_count = 0;
  next_gc_at = next_gc_at;
  pause = pause;
  issue = none;
}

abbrev pub repair_required_result :
    Option SyncPauseState → ℕ → Option ℕ → SyncRepairIssue → ℕ → SyncRepairResult
repair_required_result pause remaining next_gc_at issue deleted_count = record {
  status = manual_repair_required;
  deleted_staged_blob_count = deleted_count;
  remaining_stale_staged_blob_count = remaining;
  next_gc_at = next_gc_at;
  pause = pause;
  issue = some issue;
}

-- The variables of the loop, with the database.
pub record Repair : Type 0 where
  pub db : Database
  pub deleted_count : ℕ
  pub issue : Option SyncRepairIssue

-- What follows the record's transaction: nothing for a blob that is referenced.
abbrev pub follow_deletion :
    (others : Database → Database) (object_deleted : Bool)
    → Repair
    → Database × DeleteOutcome
    → Repair
follow_deletion others object_deleted r (db, referenced) = record r {
  db = db;
  issue = some referenced_staged_blob;
}
follow_deletion others object_deleted r (db, missing) =
    if object_deleted
    then record r { db = others db }
    else record r { db = others db; issue = some blob_storage_delete_failed }
follow_deletion others object_deleted r (db, deleted) =
    if object_deleted
    then record r { db = others db; deleted_count = suc r.deleted_count }
    else record r { db = others db; issue = some blob_storage_delete_failed }

unfoldable pub repair_each :
    (others : ℕ → Database → Database) (object_deleted : String → Bool) (now : ℕ)
    → List Blob
    → Repair
    → Repair
repair_each others object_deleted now [] r = r
repair_each others object_deleted now (b ∷ bs) r = repair_each others object_deleted now bs (
    follow_deletion (others (length bs)) (object_deleted b.blob_id) r
      (delete_unreferenced_staged_blob r.db b.blob_id now))

abbrev pub stale_blobs : ℕ → Database → List Blob
stale_blobs now db =
    list_stale_staged_blobs now staged_blob_stale_ms (max_repairable_stale_staged_blobs + 1)
      db.blobs

abbrev pub clear_if : Bool → Vault → Vault
clear_if true v = record v { db = record v.db { state = clear_sync_pause v.db.state } }
clear_if false v = v

abbrev pub is_unfinished : Option SyncRepairIssue → List Blob → Bool
is_unfinished issue remaining = is_some issue || ltb 0 (length remaining)

-- What follows the loop.
unfoldable pub repair_finish : ℕ → Option SyncPauseState → Repair → Vault → Vault × SyncRepairResult
repair_finish now pause r v =
    let remaining = stale_blobs now r.db in
    let next_gc_at = read_next_gc_at r.db now in
    let scheduled = schedule_now now (record v { db = r.db }) in
    if is_unfinished r.issue remaining
    then (
      scheduled,
      repair_required_result pause (length remaining) next_gc_at
          (or_else r.issue referenced_staged_blob) r.deleted_count,
    )
    else (
      clear_if (is_some pause) scheduled,
      record (empty_repair_result none next_gc_at
          (if is_some pause || ltb 0 r.deleted_count then repaired else not_paused)) {
            deleted_staged_blob_count = r.deleted_count;
          },
    )

abbrev pub is_supported : Option SyncPauseState → Bool
is_supported none = true
is_supported (some pause) = is_stale_staged_blob_pause_reason pause.reason

abbrev pub repair_stale :
    (others : ℕ → Database → Database) (object_deleted : String → Bool) (now : ℕ)
    → Vault
    → Option SyncPauseState
    → List Blob
    → Vault × SyncRepairResult
repair_stale others object_deleted now v pause stale =
    if not (is_supported pause)
    then (v, repair_required_result pause (length stale) none unsupported_pause_reason 0)
    else if ltb max_repairable_stale_staged_blobs (length stale)
    then (v, repair_required_result pause (length stale) none repair_limit_exceeded 0)
    else repair_finish now pause
        (repair_each others object_deleted now stale
          (record { db = v.db; deleted_count = 0; issue = none }))
        v

unfoldable pub repair_sync_state :
    (others : ℕ → Database → Database) (object_deleted : String → Bool)
    → String
    → ℕ
    → Vault
    → Result (Vault × SyncRepairResult)
repair_sync_state others object_deleted vault_id now v =
    vault_state_exists_for vault_id v.db.state >>= λ exists. ok (
      if exists
      then repair_stale others object_deleted now v (read_sync_pause v.db.state)
          (stale_blobs now v.db)
      else (v, empty_repair_result none none not_paused))
