-- ===== src/Blobs/Tests.antt =====
-- Runs of the services on concrete vaults.
use synch_api.Prelude.{◌≡◌, refl, true, false, none, some, [], ◌∷◌, string_dec, ◌↔◌, truthy}
use synch_api.Policy.Blob.{staged_with, decide_blob_stage}
use synch_api.Policy.BlobGc.{
  staged, live, decide_blob_collection, decide_pending_delete, collectible,
}
use synch_api.Store.Rows.{Entry, Blob, CoordinatorState, Database, ok}
use synch_api.Store.References.{
  current_blob_reference, retained_blob_reference, read_blob_reference_facts,
}
use synch_api.Store.Blobs.{
  read_blob, update_state, persist_stage, delete_where, delete_blob_record,
  delete_collectible_blobs, collectible_blob, collection_facts,
}
use synch_api.Store.Liveness.{AllLive}
use synch_api.Store.Sizes.{total_size}
use synch_api.Store.State.{
  read_sync_pause, read_vault_id, add_storage_used_bytes, sub_storage_used_bytes, read_vault_limits,
  read_storage_used_bytes, pause_sync,
}
use synch_api.Blobs.Records.{
  account_for_deleted_blobs, follow_stage, stage_running, stage_blob_record,
  delete_unreferenced_staged_blob, mark_unpinned_blob_pending_delete,
  delete_collectible_blob_records,
}
use synch_api.Blobs.Staging.{IsReserved, stage_blob_record-IsReserved}
use synch_api.Blobs.Live.{
  IsSound, stage_blob_record-IsSound, delete_collectible_blob_records-IsSound,
}
use synch_api.Blobs.Service.{delete_then, delete_blob_check, delete_blob_finish, delete_blob}
use synch_api.Blobs.Collect.{collectible_blob-decide, delete_blob-IsSound, delete_blob_finish-lost}

-- Opens all that the operations compute with.
runs : Unit {0}
unfolding string_dec decide_blob_stage decide_blob_collection decide_pending_delete
    current_blob_reference retained_blob_reference read_blob_reference_facts read_blob update_state
    persist_stage delete_where delete_blob_record delete_collectible_blobs collectible_blob
    read_sync_pause read_vault_id add_storage_used_bytes sub_storage_used_bytes read_vault_limits
    read_storage_used_bytes pause_sync account_for_deleted_blobs follow_stage stage_running
    stage_blob_record delete_unreferenced_staged_blob mark_unpinned_blob_pending_delete
    delete_collectible_blob_records delete_blob_check delete_blob_finish delete_blob total_size
runs = tt

abbrev note : Entry
note = record {
  entry_id = "note";
  revision = 3;
  blob_id = some "kept";
  encrypted_metadata = "m";
  deleted = false;
  updated_seq = 7;
  updated_at = 500;
  updated_by_user_id = "ada";
  updated_by_local_vault_id = "phone";
  last_mutation_id = none;
}

abbrev kept_blob : Blob
kept_blob = record {
  blob_id = "kept";
  state = live;
  size_bytes = 40;
  created_at = 100;
  last_uploaded_at = 100;
  delete_after = none;
}

abbrev upload : Blob
upload = record {
  blob_id = "upload";
  state = staged;
  size_bytes = 25;
  created_at = 200;
  last_uploaded_at = 200;
  delete_after = some 900;
}

abbrev vault_row : CoordinatorState
vault_row = record {
  vault_id = "v1";
  current_cursor = 7;
  storage_used_bytes = 65;
  storage_limit_bytes = 100;
  max_file_size_bytes = 50;
  version_history_retention_days = 1;
  last_commit_at = some 500;
  last_gc_at = none;
  sync_paused_at = none;
  sync_pause_reason = none;
}

abbrev vault : Database
vault = record {
  entries = note ∷ [];
  versions = [];
  blobs = kept_blob ∷ upload ∷ [];
  state = some vault_row;
}

vault-IsSound : IsSound vault
unfolding runs
vault-IsSound = record { live = (refl, tt); accounted = refl }

-- A new upload of 35 bytes just fits.
abbrev more : Database
more = record vault {
  blobs =
      kept_blob
      ∷ upload
      ∷ record upload {
        blob_id = "more";
        size_bytes = 35;
        created_at = 300;
        last_uploaded_at = 300;
        delete_after = some 1300;
      }
      ∷ [];
  state = some (record vault_row { storage_used_bytes = 100 });
}

stages : stage_blob_record vault "more" 35 300 1300 ≡ ok (more, staged_with 35)
unfolding runs
stages = refl

stage_blob_record-IsSound_example : IsSound more
stage_blob_record-IsSound_example =
    stage_blob_record-IsSound vault more "more" 35 300 1300 (staged_with 35) stages vault-IsSound

stage_blob_record-IsReserved_example :
    IsReserved vault_row (read_blob "more" vault.blobs) "more" 35 1300 more
stage_blob_record-IsReserved_example =
    stage_blob_record-IsReserved vault more "more" 35 300 1300 35 vault_row refl stages

delete_collectible_blob_records-IsSound_example :
    IsSound (delete_collectible_blob_records vault ("kept" ∷ "upload" ∷ []) 900).0
delete_collectible_blob_records-IsSound_example =
    delete_collectible_blob_records-IsSound vault ("kept" ∷ "upload" ∷ []) 900 vault-IsSound

collectible_blob-decide_example :
    (collectible_blob vault 900 upload ≡ true)
    ↔ (decide_blob_collection (collection_facts vault 900 upload) 900 ≡ collectible)
collectible_blob-decide_example = collectible_blob-decide vault 900 upload

abbrev without_upload : Database
without_upload = record vault {
  blobs = kept_blob ∷ [];
  state = some (record vault_row { storage_used_bytes = 40 });
}

deletes : delete_blob vault "upload" 300 ≡ ok without_upload
unfolding runs
deletes = refl

delete_blob-IsSound_example : IsSound without_upload
delete_blob-IsSound_example =
    delete_blob-IsSound vault without_upload "upload" 300 deletes vault-IsSound

-- The vault after a commit that names the upload has come in between.
abbrev committed : Database
committed = record vault {
  entries = record note { entry_id = "new"; blob_id = some "upload" } ∷ note ∷ [];
  blobs = kept_blob ∷ record upload { state = live; delete_after = none } ∷ [];
}

checked : delete_blob_check vault "upload" 300 ≡ ok (delete_then true)
unfolding runs
checked = refl

named : truthy (some "upload") ≡ some "upload"
unfolding runs
named = refl

referenced : current_blob_reference "upload" committed.entries ≡ true
unfolding runs
referenced = refl

delete_blob_finish-lost_example :
    ¬ AllLive
      (delete_blob_finish (delete_then true) committed "upload").entries
      (delete_blob_finish (delete_then true) committed "upload").blobs
delete_blob_finish-lost_example = delete_blob_finish-lost committed "upload" named referenced
