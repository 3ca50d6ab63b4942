-- ===== src/Commit/Tests.antt =====
-- Runs of the commit transaction on concrete vaults.
use synch_api.Prelude.{
  ℕ, ◌≡◌, refl, String, false, none, some, List, [], ◌∷◌, string_dec, trim, arith, map,
}
use synch_api.Policy.Entry.{upsert, decide_entry_mutation}
use synch_api.Policy.BlobGc.{staged, live}
use synch_api.Store.Rows.{Entry, Blob, CoordinatorState, Database, ok, err}
use synch_api.Store.Entries.{read_entry, upsert_entry}
use synch_api.Store.Versions.{insert_entry_version, contains}
use synch_api.Store.References.{current_blob_reference}
use synch_api.Store.Blobs.{read_blob, update_state}
use synch_api.Store.State.{read_sync_pause, read_vault_id, current_cursor, save_commit}
use synch_api.Store.Liveness.{AllLive}
use synch_api.Commit.Loop.{commit_transaction-AllLive}
use synch_api.Commit.Cursor.{IsLog, Advances, commit_transaction-Advances}
use synch_api.Commit.Retry.{commit_transaction-retry}
use synch_api.Commit.Refines.{commit_transaction-Refines}
use synch_api.Commit.Spec.{ServesAll, view}
use synch_api.Commit.Total.{commit_transaction-answers}
use synch_api.Commit.Batch.{
  Session, Mutation, Context, answered_id, accepted, rejected, stale, duplicate_mutation_id,
  blob_not_staged, blob_not_found, check_named, mark_named, retire_named, save_forced, save_auto,
  write_entry, apply_at, apply_change, follow_decision, commit_new, commit_one, commit_all, finish,
  commit_transaction, Committed,
}

-- Opens all that the transaction computes with.
unfoldable pub runs : Unit {0}
unfolding string_dec trim decide_entry_mutation read_entry upsert_entry insert_entry_version
    contains current_blob_reference read_blob update_state read_sync_pause read_vault_id
    current_cursor save_commit check_named mark_named retire_named save_forced save_auto write_entry
    apply_at apply_change follow_decision commit_new commit_one commit_all finish commit_transaction
runs = tt

abbrev session : Session
session = record { user_id = "ada"; local_vault_id = "laptop"; vault_id = "v1" }

abbrev pub context : Context
context = record {
  session = session;
  unavailable_blob_ids = "lost" ∷ [];
  now = 1_000_000;
  version_history_retention_ms = 86_400_000;
  blob_grace_period_ms = 1_800_000;
  forced_history_before = none;
  random_uuid = λ n. "uuid";
}

abbrev note : Entry
note = record {
  entry_id = "note";
  revision = 1;
  blob_id = some "b1";
  encrypted_metadata = "m1";
  deleted = false;
  updated_seq = 4;
  updated_at = 500;
  updated_by_user_id = "ada";
  updated_by_local_vault_id = "phone";
  last_mutation_id = some "first";
}

abbrev blob_in : String → Blob
blob_in id = record {
  blob_id = id;
  state = live;
  size_bytes = 10;
  created_at = 100;
  last_uploaded_at = 100;
  delete_after = none;
}

abbrev state : CoordinatorState
state = record {
  vault_id = "v1";
  current_cursor = 4;
  storage_used_bytes = 20;
  storage_limit_bytes = 1000;
  max_file_size_bytes = 100;
  version_history_retention_days = 1;
  last_commit_at = none;
  last_gc_at = none;
  sync_paused_at = none;
  sync_pause_reason = none;
}

abbrev db : Database
db = record {
  entries = note ∷ [];
  versions = [];
  blobs = blob_in "b1" ∷ record (blob_in "b2") { state = staged; delete_after = some 5 } ∷ [];
  state = some state;
}

abbrev pub edit : String → ℕ → String → Mutation
edit id base blob = record {
  mutation_id = id;
  entry_id = "note";
  op = upsert;
  base_revision = base;
  blob_id = some blob;
  encrypted_metadata = "m2";
}

abbrev batch : List Mutation
batch =
    edit " second " 1 "b2"
    ∷ edit "second" 1 "b2"
    ∷ edit "late" 1 "b2"
    ∷ edit "third" 2 "lost"
    ∷ edit "fourth" 2 "b9"
    ∷ []

runs_batch :
    (elim (commit_transaction context batch db) [ err e ↦ [] | ok (d, c) ↦ c.results ])
    ≡ accepted "second" 5 "note" 2
      ∷ rejected "second" "note" duplicate_mutation_id
      ∷ rejected "late" "note" (stale 2 1)
      ∷ rejected "third" "note" blob_not_found
      ∷ rejected "fourth" "note" blob_not_staged
      ∷ []
unfolding runs
runs_batch = refl

db-live : AllLive db.entries db.blobs
unfolding runs
db-live = (refl, tt)

db-IsLog : IsLog 4 db.entries
db-IsLog = record { at_most = omega arith; apart = (tt, tt) }

after_edit : Database
after_edit = elim (commit_transaction context (edit "second" 1 "b2" ∷ []) db) [
  | ok (d, c) ↦ d
  | err e ↦ db
]

edited : Committed
edited = record {
  cursor = 5;
  results = accepted "second" 5 "note" 2 ∷ [];
  broadcast_cursor = some 5;
}

commits : commit_transaction context (edit "second" 1 "b2" ∷ []) db ≡ ok (after_edit, edited)
unfolding runs after_edit edited
commits = refl

edited_results : edited.results ≡ accepted (trim "second") 5 "note" 2 ∷ []
unfolding edited trim
edited_results = refl

runs_free : read_sync_pause db.state ≡ none
unfolding read_sync_pause
runs_free = refl

commit_transaction-AllLive_example : AllLive after_edit.entries after_edit.blobs
commit_transaction-AllLive_example =
    commit_transaction-AllLive context (edit "second" 1 "b2" ∷ []) db after_edit edited commits
      db-live

commit_transaction-Advances_example : Advances state db.entries after_edit edited
commit_transaction-Advances_example =
    commit_transaction-Advances context (edit "second" 1 "b2" ∷ []) db after_edit edited state refl
      refl db-IsLog commits

-- Another entry has been written since.
abbrev afterwards : Database
afterwards = record after_edit {
  entries = record note { entry_id = "draft"; updated_seq = 6 } ∷ after_edit.entries;
}

afterwards_kept : read_entry "note" afterwards.entries ≡ read_entry "note" after_edit.entries
unfolding runs after_edit
afterwards_kept = refl

afterwards_free : read_sync_pause afterwards.state ≡ none
unfolding runs after_edit read_sync_pause
afterwards_free = refl

commit_transaction-retry_example :
    commit_transaction context (edit "second" 1 "b2" ∷ []) afterwards
    ≡ ok (afterwards, record { cursor = 5; results = edited.results; broadcast_cursor = none })
commit_transaction-retry_example =
    commit_transaction-retry context context (edit "second" 1 "b2") db after_edit afterwards edited
      "note" 5 2 commits edited_results afterwards_kept afterwards_free

commit_transaction-answers_example :
    (db' : Database) × (c : Committed) × (commit_transaction context batch db ≡ ok (db', c))
    × (map answered_id c.results ≡ map (λ (m : Mutation). trim m.mutation_id) batch)
commit_transaction-answers_example =
    commit_transaction-answers context batch db state refl refl runs_free

commit_transaction-Refines_example :
    (cursor : ℕ) × (current_cursor after_edit.state ≡ ok cursor)
    × ServesAll
        (edit "second" 1 "b2" ∷ [])
        ("lost" ∷ [])
        []
        (view 4 db)
        edited.results
        (view cursor after_edit)
commit_transaction-Refines_example =
    commit_transaction-Refines context (edit "second" 1 "b2" ∷ []) db after_edit edited state refl
      refl commits
