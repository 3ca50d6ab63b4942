-- ===== src/Blobs/Records.antt =====
-- src/sync-coordinator/application/services/blob-record-operations.ts: the transactions on blob
-- records that the services share.
use mathlib.Core.Option
use synch_api.Prelude.{
  ℕ, String, Bool, false, not, ◌||◌, Option, none, some, List, [], ◌∷◌, ltb, if◌then◌else◌, truthy,
}
use synch_api.Policy.Blob.{
  ExistingBlob, StageInput, StageDecision, sync_paused, rejected, staged_with, decide_blob_stage,
}
use synch_api.Policy.BlobGc.{
  staged, pending_delete, same_state, mark_pending_delete, retain, PendingDecision,
  decide_pending_delete, is_blob_pinned,
}
use synch_api.Policy.Health.{staged_blob_stale_ms}
use synch_api.Store.Rows.{Blob, Database, Result, ok, err, sync_state_uninitialized, ◌>>=◌}
use synch_api.Store.References.{read_blob_reference_facts}
use synch_api.Store.Blobs.{
  read_blob, persist_stage, update_state, delete_blob_record, delete_collectible_blobs,
  collection_facts,
}
use synch_api.Store.Sizes.{total_size}
use synch_api.Store.State.{
  State, VaultStateLimits, read_sync_pause, read_vault_id, read_vault_limits,
  read_storage_used_bytes, add_storage_used_bytes, sub_storage_used_bytes, pause_sync,
}

-- A deletion's two tables: what stays is written, and the bytes of what went are given back.
unfoldable pub account_for_deleted_blobs : Database → List Blob × List Blob → Database
account_for_deleted_blobs db (kept, deleted) =
    let bytes = total_size deleted in
    record db {
      blobs = kept;
      state = if ltb 0 bytes then sub_storage_used_bytes bytes db.state else db.state;
    }

abbrev pub existing_blob : Blob → ExistingBlob
existing_blob b = record { state = b.state; size_bytes = b.size_bytes; created_at = b.created_at }

-- `blob ? isBlobPinned(…) : false`
abbrev pub pinned_if_there : Database → String → ℕ → Option Blob → Bool
pinned_if_there db blob_id now none = false
pinned_if_there db blob_id now (some b) = is_blob_pinned (read_blob_reference_facts db blob_id now)

abbrev pub stage_input : Database → String → ℕ → ℕ → Option Blob → ℕ → VaultStateLimits → StageInput
stage_input db blob_id size_bytes now blob used limits = record {
  blob_id = blob_id;
  size_bytes = size_bytes;
  now = now;
  stale_after_ms = staged_blob_stale_ms;
  existing = Option.map existing_blob blob;
  is_pinned = pinned_if_there db blob_id now blob;
  storage_used_bytes = used;
  storage_limit_bytes = limits.storage_limit_bytes;
  max_file_size_bytes = limits.max_file_size_bytes;
}

-- `if (decision.storageDeltaBytes > 0) adjustStorageUsedBytes(…)`
abbrev reserve : ℕ → State → State
reserve delta state = if ltb 0 delta then add_storage_used_bytes delta state else state

unfoldable pub follow_stage : Database → String → ℕ → ℕ → ℕ → StageDecision → Database
follow_stage db blob_id size_bytes now delete_after (sync_paused reason) = record db {
  state = pause_sync now reason db.state;
}
follow_stage db blob_id size_bytes now delete_after (rejected why) = db
follow_stage db blob_id size_bytes now delete_after (staged_with delta) = record db {
  blobs = persist_stage blob_id size_bytes now delete_after db.blobs;
  state = reserve delta db.state;
}

abbrev stage_with :
    Database → String → ℕ → ℕ → ℕ → Option Blob → ℕ → VaultStateLimits → Database × StageDecision
stage_with db blob_id size_bytes now delete_after blob used limits =
    let decision = decide_blob_stage (stage_input db blob_id size_bytes now blob used limits) in
    (follow_stage db blob_id size_bytes now delete_after decision, decision)

unfoldable pub stage_running : Database → String → ℕ → ℕ → ℕ → Result (Database × StageDecision)
stage_running db blob_id size_bytes now delete_after = elim (truthy (read_vault_id db.state)) [
  | none ↦ err sync_state_uninitialized
  | some _ ↦ read_vault_limits db.state >>= λ limits. read_storage_used_bytes db.state >>= λ used.
      ok
        (stage_with db blob_id size_bytes now delete_after (read_blob blob_id db.blobs) used limits)
]

unfoldable pub stage_blob_record : Database → String → ℕ → ℕ → ℕ → Result (Database × StageDecision)
stage_blob_record db blob_id size_bytes now delete_after = elim (read_sync_pause db.state) [
  | some pause ↦ ok (db, sync_paused pause.reason)
  | none ↦ stage_running db blob_id size_bytes now delete_after
]

pub data DeleteOutcome : Type 0 where
  missing referenced deleted : DeleteOutcome

abbrev outcome_of : List Blob → DeleteOutcome
outcome_of [] = missing
outcome_of (b ∷ bs) = deleted

abbrev delete_found : Database → String → ℕ → Option Blob → Database × DeleteOutcome
delete_found db blob_id now none = (db, missing)
delete_found db blob_id now (some b) =
    if not (same_state b.state staged) || is_blob_pinned (read_blob_reference_facts db blob_id now)
    then (db, referenced)
    else let rows = delete_blob_record blob_id (some staged) db.blobs in
      (account_for_deleted_blobs db rows, outcome_of rows.1)

unfoldable pub delete_unreferenced_staged_blob : Database → String → ℕ → Database × DeleteOutcome
delete_unreferenced_staged_blob db blob_id now =
    delete_found db blob_id now (read_blob blob_id db.blobs)

abbrev mark_decided : String → PendingDecision → List Blob → List Blob
mark_decided blob_id (mark_pending_delete deadline) blobs =
    update_state blob_id pending_delete (some deadline) blobs
mark_decided blob_id (retain reason) blobs = blobs

abbrev mark_found : Database → String → ℕ → Option Blob → List Blob
mark_found db blob_id now none = db.blobs
mark_found db blob_id now (some b) =
    mark_decided blob_id (decide_pending_delete (collection_facts db now b) now) db.blobs

unfoldable pub mark_unpinned_blob_pending_delete : Database → String → ℕ → Database
mark_unpinned_blob_pending_delete db blob_id now = record db {
  blobs = mark_found db blob_id now (read_blob blob_id db.blobs);
}

-- The database after the deletion, and the deleted rows.
unfoldable pub delete_collectible_blob_records : Database → List String → ℕ → Database × List Blob
delete_collectible_blob_records db ids now =
    let rows = delete_collectible_blobs db ids now in (account_for_deleted_blobs db rows, rows.1)
