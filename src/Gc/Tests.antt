-- ===== src/Gc/Tests.antt =====
-- Collections on a concrete vault.
use synch_api.Prelude.{
  ℕ, ◌≡◌, ◌≤◌, ◌⊎◌, refl, String, true, false, none, some, List, [], ◌∷◌, arith, string_dec, max,
  length,
}
use synch_api.Policy.BlobGc.{
  staged, pending_delete, decide_blob_collection, decide_pending_delete, minimum,
  earliest_gc_deadline,
}
use synch_api.Store.Rows.{Blob, CoordinatorState, Database}
use synch_api.Store.References.{
  current_blob_reference, retained_blob_reference, read_blob_reference_facts,
}
use synch_api.Store.Versions.{contains, expire_entry_versions}
use synch_api.Store.Blobs.{
  read_blob, update_state, delete_where, delete_collectible_blobs, collectible_blob,
}
use synch_api.Store.Sizes.{total_size}
use synch_api.Store.State.{read_vault_id, sub_storage_used_bytes, record_gc_completed}
use synch_api.Blobs.Records.{
  account_for_deleted_blobs, mark_unpinned_blob_pending_delete, delete_collectible_blob_records,
}
use synch_api.Blobs.Live.{IsSound}
use synch_api.Maintenance.Jobs.{
  defer, rearm, maintenance_job_due_at, read_job, row_of, read_next_due_at, upsert_job, update_job,
}
use synch_api.Maintenance.Armed.{IsArmed}
use synch_api.Gc.Queries.{
  insert_blob, order_blobs, list_collectible_blobs, first_collectible, read_collectible_blob,
  staged_deadlines, pending_deadlines, read_gc_deadlines, Candidate, to_candidate, has_facts_free,
}
use synch_api.Gc.Keeps.{run_gc-IsSound, collect_purged-IsSound}
use synch_api.Gc.Takes.{Gone, delete_collectible_batch-Gone}
use synch_api.Gc.Arms.{Planned, run_gc_finish-Planned}
use synch_api.Gc.Clears.{due, run_gc-clears}
use synch_api.Gc.Runs.{
  Vault, RunBlobGcOptions, thrown, answered, begun, next_gc, read_next_gc_at,
  delete_collectible_batch, run_gc_start, run_gc_finish, collect_each, collect_purged_start,
  collect_purged_finish, distinct_from,
}

-- Opens all that a run computes with.
runs : Unit {0}
unfolding string_dec decide_blob_collection decide_pending_delete minimum earliest_gc_deadline
    current_blob_reference retained_blob_reference read_blob_reference_facts contains
    expire_entry_versions read_blob update_state delete_where delete_collectible_blobs
    collectible_blob total_size read_vault_id sub_storage_used_bytes record_gc_completed
    account_for_deleted_blobs mark_unpinned_blob_pending_delete delete_collectible_blob_records
    defer rearm maintenance_job_due_at read_job row_of read_next_due_at upsert_job update_job
    insert_blob order_blobs list_collectible_blobs first_collectible read_collectible_blob
    staged_deadlines pending_deadlines read_gc_deadlines read_next_gc_at delete_collectible_batch
    run_gc_start run_gc_finish collect_each collect_purged_start collect_purged_finish distinct_from
runs = tt

abbrev old_blob : Blob
old_blob = record {
  blob_id = "old";
  state = pending_delete;
  size_bytes = 10;
  created_at = 1;
  last_uploaded_at = 1;
  delete_after = some 100;
}

abbrev upload : Blob
upload = record old_blob { blob_id = "upload"; state = staged; delete_after = some 9000 }

abbrev state : CoordinatorState
state = record {
  vault_id = "v1";
  current_cursor = 7;
  storage_used_bytes = 20;
  storage_limit_bytes = 1000;
  max_file_size_bytes = 100;
  version_history_retention_days = 1;
  last_commit_at = none;
  last_gc_at = none;
  sync_paused_at = none;
  sync_pause_reason = none;
}

abbrev db : Database
db = record { entries = []; versions = []; blobs = upload ∷ old_blob ∷ []; state = some state }

abbrev vault : Vault
vault = record {
  db = db;
  scheduler = record { jobs = []; alarm = none };
  notified = false;
  summary_asked = false;
}

db-IsSound : IsSound db
unfolding runs
db-IsSound = record { live = tt; accounted = refl }

abbrev options : RunBlobGcOptions
options = record { schedule_health_flush = true; schedule_next_gc = true }

abbrev key : String → String
key id = id

abbrev batch : List Candidate
batch = to_candidate db 5000 old_blob ∷ []

starts : run_gc_start none (λ id. true) 5000 5000 vault ≡ (vault, begun "v1" batch)
unfolding runs
starts = refl

abbrev collected : Vault
collected = (run_gc_finish key options 5000 (answered []) batch vault).0

ends : run_gc_finish key options 5000 (answered []) batch vault ≡ (collected, next_gc (some 9000))
unfolding runs
ends = refl

keeps_upload : read_blob "upload" collected.db.blobs ≡ some upload
unfolding runs
keeps_upload = refl

run_gc-IsSound_example :
    IsSound (run_gc_start none (λ id. true) 5000 5000 vault).0.db
    × IsSound (run_gc_finish key options 5000 thrown batch vault).0.db
run_gc-IsSound_example =
    run_gc-IsSound none (λ id. true) key options 5000 5000 thrown batch vault vault db-IsSound
      db-IsSound

collect_purged-IsSound_example :
    IsSound (collect_purged_start true ("old" ∷ "old" ∷ []) 5000 db).0
    × IsSound (collect_purged_finish key 5000 (answered ("old" ∷ [])) batch vault).db
collect_purged-IsSound_example =
    collect_purged-IsSound true ("old" ∷ "old" ∷ []) key 5000 (answered ("old" ∷ [])) batch db vault
      db-IsSound db-IsSound

reads_old : read_blob "old" db.blobs ≡ some old_blob
unfolding runs
reads_old = refl

delete_collectible_batch-Gone_example :
    (read_blob "old" (delete_collectible_batch key (answered []) batch 5000 db).0.blobs
      ≡ some old_blob)
    ⊎ (Gone key (answered []) batch "old" × (collectible_blob db 5000 old_blob ≡ true))
delete_collectible_batch-Gone_example =
    delete_collectible_batch-Gone key (answered []) batch 5000 db "old" old_blob reads_old

unreferenced_upload : has_facts_free collected.db 5000 upload ≡ true
unfolding runs
unreferenced_upload = refl

vault-IsArmed : IsArmed vault.scheduler
unfolding runs
vault-IsArmed = refl

run_gc_finish-Planned_example :
    (t : ℕ) × (some 9000 ≡ some t) × (t ≤ max 5000 9000) × Planned t collected.scheduler
run_gc_finish-Planned_example =
    run_gc_finish-Planned key options 5000 (answered []) batch vault collected (some 9000) "upload"
      upload 9000 vault-IsArmed refl ends keeps_upload refl refl unreferenced_upload

few : length (due vault.db 5000) ≤ 1000
unfolding runs
few = omega arith

run_gc-clears_example : due collected.db 5000 ≡ []
run_gc-clears_example =
    run_gc-clears none (λ id. true) key options 5000 5000 vault vault collected "v1" batch
      (next_gc (some 9000)) starts few ends
