-- ===== src/Restore/Tests.antt =====
-- A batch of restores on a concrete vault.
use synch_api.Prelude.{ℕ, ◌≡◌, refl, String, false, none, some, List, [], ◌∷◌}
use synch_api.Policy.Entry.{upsert, auto, is_restore_payload_compatible}
use synch_api.Policy.BlobGc.{live}
use synch_api.Store.Rows.{Entry, EntryVersion, Blob, Database, Result, ok, err}
use synch_api.Store.Versions.{read_entry_version}
use synch_api.Store.State.{read_vault_limits, read_version_history_retention_days}
use synch_api.Commit.Tests.{runs as commits, context}
use synch_api.Restore.Settles.{Settled, restore_entry_versions-Settled}
use synch_api.Restore.Batch.{
  Restore, RestoreResult, restored, refused, entry_not_found, stale_revision, Restored,
  check_restore, stage_restores, restore_start, settle_all, restore_nothing, restore_finish,
  restore_entry_versions,
}

-- Opens all that a restore computes with.
runs : Unit {0}
unfolding commits is_restore_payload_compatible read_entry_version read_vault_limits
    read_version_history_retention_days check_restore stage_restores restore_start settle_all
    restore_nothing restore_finish restore_entry_versions
runs = tt

abbrev note : Entry
note = record {
  entry_id = "note";
  revision = 2;
  blob_id = some "b2";
  encrypted_metadata = "m2";
  deleted = false;
  updated_seq = 4;
  updated_at = 500;
  updated_by_user_id = "ada";
  updated_by_local_vault_id = "phone";
  last_mutation_id = some "first";
}

abbrev old_note : EntryVersion
old_note = record {
  version_id = "v-old";
  entry_id = "note";
  source_revision = 1;
  op_type = upsert;
  blob_id = some "b1";
  encrypted_metadata = "m1";
  reason = auto;
  bucket_start_ms = none;
  captured_at = 900_000;
  expires_at = 90_000_000;
  created_by_user_id = "ada";
  created_by_local_vault_id = "phone";
}

abbrev blob_in : String → Blob
blob_in id = record {
  blob_id = id;
  state = live;
  size_bytes = 10;
  created_at = 100;
  last_uploaded_at = 100;
  delete_after = none;
}

abbrev db : Database
db = record {
  entries = note ∷ [];
  versions = old_note ∷ [];
  blobs = blob_in "b1" ∷ blob_in "b2" ∷ [];
  state = some (record {
    vault_id = "v1";
    current_cursor = 4;
    storage_used_bytes = 20;
    storage_limit_bytes = 1000;
    max_file_size_bytes = 100;
    version_history_retention_days = 1;
    last_commit_at = none;
    last_gc_at = none;
    sync_paused_at = none;
    sync_pause_reason = none;
  });
}

abbrev restore : String → ℕ → Restore
restore entry_id base = record {
  entry_id = entry_id;
  version_id = "v-old";
  base_revision = base;
  op = upsert;
  blob_id = some "b1";
  encrypted_metadata = "m1";
}

abbrev batch : List Restore
batch = restore "gone" 1 ∷ restore "note" 2 ∷ restore "note" 1 ∷ []

abbrev results : List RestoreResult
results =
    refused "gone" "v-old" entry_not_found
    ∷ restored "note" "v-old" 1 5 3
    ∷ refused "note" "v-old" (stale_revision 2 1)
    ∷ []

abbrev database_of : Result (Database × Restored) → Database
database_of (ok (db', out)) = db'
database_of (err why) = db

abbrev after : Database
after = database_of (restore_entry_versions context (λ n. "restoring") batch db db)

restores :
    restore_entry_versions context (λ n. "restoring") batch db db
    ≡ ok (after, record { cursor = 5; results = results; broadcast_cursor = some 5 })
unfolding runs
restores = refl

restore_entry_versions-Settled_example : Settled batch results
restore_entry_versions-Settled_example =
    restore_entry_versions-Settled context (λ n. "restoring") batch db db after
      (record { cursor = 5; results = results; broadcast_cursor = some 5 }) restores
