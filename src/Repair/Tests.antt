-- ===== src/Repair/Tests.antt =====
-- A pause and a repair of a concrete vault.
use synch_api.Prelude.{◌≡◌, refl, true, false, none, some, [], ◌∷◌, string_dec, insert_by, order_by}
use synch_api.Policy.Blob.{is_stale_staged_blob_pause_reason}
use synch_api.Policy.BlobGc.{staged, minimum, earliest_gc_deadline}
use synch_api.Store.Rows.{Blob, CoordinatorState, ok}
use synch_api.Store.References.{
  current_blob_reference, retained_blob_reference, read_blob_reference_facts,
}
use synch_api.Store.Blobs.{read_blob, delete_where, delete_blob_record, list_stale_staged_blobs}
use synch_api.Store.Sizes.{total_size}
use synch_api.Store.State.{
  State, SyncPauseState, read_sync_pause, read_vault_id, sub_storage_used_bytes, pause_sync,
  clear_sync_pause, vault_state_exists_for,
}
use synch_api.Blobs.Records.{account_for_deleted_blobs, delete_unreferenced_staged_blob}
use synch_api.Maintenance.Jobs.{
  defer, rearm, maintenance_job_due_at, read_job, row_of, read_next_due_at, upsert_job, update_job,
}
use synch_api.Gc.Queries.{staged_deadlines, pending_deadlines, read_gc_deadlines}
use synch_api.Gc.Runs.{Vault, read_next_gc_at}
use synch_api.Repair.Pause.{set_sync_pause, done, Holds, is_manual, set_sync_pause-Holds}
use synch_api.Repair.Runs.{
  repaired, SyncRepairResult, repair_each, repair_finish, repair_sync_state,
}
use synch_api.Repair.Cleans.{IsClean, repair_sync_state-IsClean}

-- Opens all that a repair computes with.
runs : Unit {0}
unfolding string_dec insert_by order_by is_stale_staged_blob_pause_reason minimum
    earliest_gc_deadline current_blob_reference retained_blob_reference read_blob_reference_facts
    read_blob delete_where delete_blob_record list_stale_staged_blobs total_size read_sync_pause
    read_vault_id sub_storage_used_bytes pause_sync clear_sync_pause vault_state_exists_for
    account_for_deleted_blobs delete_unreferenced_staged_blob defer rearm maintenance_job_due_at
    read_job row_of read_next_due_at upsert_job update_job staged_deadlines pending_deadlines
    read_gc_deadlines read_next_gc_at set_sync_pause repair_each repair_finish repair_sync_state
runs = tt

abbrev old_upload : Blob
old_upload = record {
  blob_id = "b1";
  state = staged;
  size_bytes = 10;
  created_at = 1;
  last_uploaded_at = 1;
  delete_after = some 100;
}

abbrev state : CoordinatorState
state = record {
  vault_id = "v1";
  current_cursor = 7;
  storage_used_bytes = 10;
  storage_limit_bytes = 1000;
  max_file_size_bytes = 100;
  version_history_retention_days = 1;
  last_commit_at = none;
  last_gc_at = none;
  sync_paused_at = some 50;
  sync_pause_reason = some "staged blob b1 remained staged for at least one hour";
}

abbrev vault : Vault
vault = record {
  db = record { entries = []; versions = []; blobs = old_upload ∷ []; state = some state };
  scheduler = record { jobs = []; alarm = none };
  notified = false;
  summary_asked = false;
}

abbrev result : SyncRepairResult
result = record {
  status = repaired;
  deleted_staged_blob_count = 1;
  remaining_stale_staged_blob_count = 0;
  next_gc_at = none;
  pause = none;
  issue = none;
}

abbrev mended : Vault
mended = record vault {
  db = record vault.db {
    blobs = [];
    state =
        some (record state {
          storage_used_bytes = 0;
          sync_paused_at = none;
          sync_pause_reason = none;
        });
  };
  scheduler = defer "blob_gc" 9_000_000 9_000_000 vault.scheduler;
}

repairs : repair_sync_state (λ n db. db) (λ id. true) "v1" 9_000_000 vault ≡ ok (mended, result)
unfolding runs
repairs = refl

exists : vault_state_exists_for "v1" vault.db.state ≡ ok true
unfolding runs
exists = refl

repair_sync_state-IsClean_example :
    (read_sync_pause mended.db.state ≡ none) × IsClean 9_000_000 mended.db
repair_sync_state-IsClean_example =
    repair_sync_state-IsClean (λ n db. db) (λ id. true) "v1" 9_000_000 vault mended result
      (λ n db h. h) exists repairs (λ e. cc)

abbrev running : State
running = some (record state { sync_paused_at = none; sync_pause_reason = none })

abbrev held : SyncPauseState
held = record { paused_at = 60; reason = "manual: audit" }

abbrev paused : State
paused = some (record state { sync_paused_at = some 60; sync_pause_reason = some "manual: audit" })

pauses : set_sync_pause "v1" (some "audit") 60 running ≡ done paused (some held) true
unfolding runs
pauses = refl

set_sync_pause-Holds_example :
    Holds (some "audit") (some held)
    × (some held ≡ read_sync_pause paused)
    × ((p : SyncPauseState) → read_sync_pause running ≡ some p → is_manual p ≡ true)
set_sync_pause-Holds_example =
    set_sync_pause-Holds "v1" (some "audit") 60 running paused (some held) true (λ e. refl) pauses
