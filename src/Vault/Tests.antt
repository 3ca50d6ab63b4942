-- ===== src/Vault/Tests.antt =====
-- The first transactions of a vault: it is made, a blob is staged, and an entry is committed.
use synch_api.Prelude.{◌≡◌, refl, true, subst, none, some, [], ◌∷◌, false, String}
use synch_api.Policy.Blob.{staged_with, decide_blob_stage}
use synch_api.Policy.BlobGc.{staged, live}
use synch_api.Store.Rows.{Blob, CoordinatorState, Database, ok}
use synch_api.Store.Sizes.{total_size}
use synch_api.Store.Blobs.{persist_stage, delete_blob_record, delete_where}
use synch_api.Store.State.{
  VaultStateLimits, ensure_vault_state, add_storage_used_bytes, sub_storage_used_bytes,
  read_vault_limits, read_storage_used_bytes,
}
use synch_api.Blobs.Records.{
  account_for_deleted_blobs, stage_blob_record, stage_running, follow_stage,
}
use synch_api.Blobs.Live.{IsSound}
use synch_api.Blobs.Service.{delete_then, delete_blob_check, delete_blob_finish}
use synch_api.Store.References.{read_blob_reference_facts, retained_blob_reference}
use synch_api.Commit.Batch.{Mutation, Committed, accepted, commit_transaction}
use synch_api.Commit.Tests.{context, edit, runs}
use synch_api.Vault.Steps.{
  Reach, System, Anytime, Unnamed, idle, transact, ask_delete, end_delete, purge, purge_vault_state,
  fresh, commit, stage, ensure, start, after,
}
use synch_api.Vault.Reach.{Reach-IsSound}
use synch_api.Blobs.Accounting.{IsAccounted}
use synch_api.Vault.Accounts.{Reach-IsAccounted}
use synch_api.Vault.Log.{IsLogged}
use synch_api.Vault.Growth.{Grown, Reach-IsLogged, Reach-Grown}

abbrev limits : VaultStateLimits
limits = record {
  storage_limit_bytes = 1000;
  max_file_size_bytes = 100;
  version_history_retention_days = 1;
}

abbrev row : CoordinatorState
row = record {
  vault_id = "v1";
  current_cursor = 0;
  storage_used_bytes = 0;
  storage_limit_bytes = 1000;
  max_file_size_bytes = 100;
  version_history_retention_days = 1;
  last_commit_at = none;
  last_gc_at = none;
  sync_paused_at = none;
  sync_pause_reason = none;
}

abbrev made : Database
made = record fresh { state = some row }

abbrev upload : Blob
upload = record {
  blob_id = "b2";
  state = staged;
  size_bytes = 60;
  created_at = 500;
  last_uploaded_at = 500;
  delete_after = some 900;
}

abbrev uploaded : Database
uploaded = record made {
  blobs = upload ∷ [];
  state = some (record row { storage_used_bytes = 60 });
}

abbrev first : Mutation
first = edit "m1" 0 "b2"

abbrev committed : Database
committed = record {
  entries =
      record {
        entry_id = "note";
        revision = 1;
        blob_id = some "b2";
        encrypted_metadata = "m2";
        deleted = false;
        updated_seq = 1;
        updated_at = 1_000_000;
        updated_by_user_id = "ada";
        updated_by_local_vault_id = "laptop";
        last_mutation_id = some "m1";
      }
      ∷ [];
  versions = [];
  blobs = record upload { state = live; delete_after = none } ∷ [];
  state =
      some (record row {
        current_cursor = 1;
        storage_used_bytes = 60;
        last_commit_at = some 1_000_000;
      });
}

answer : Committed
answer = record { cursor = 1; results = accepted "m1" 1 "note" 1 ∷ []; broadcast_cursor = some 1 }

makes : ensure_vault_state "v1" limits none ≡ ok (some row)
unfolding ensure_vault_state
makes = refl

stages : stage_blob_record made "b2" 60 500 900 ≡ ok (uploaded, staged_with 60)
unfolding runs decide_blob_stage persist_stage add_storage_used_bytes read_vault_limits
    read_storage_used_bytes stage_running follow_stage stage_blob_record
stages = refl

commits : commit_transaction context (first ∷ []) uploaded ≡ ok (committed, answer)
unfolding runs answer
commits = refl

-- A request to delete the blob gives way to the commit and is then lost.
abbrev asked : Database → System
asked db = record { db = db; deletions = "b2" ∷ [] }

asks : delete_blob_check uploaded "b2" 600 ≡ ok (delete_then true)
unfolding runs delete_blob_check read_blob_reference_facts retained_blob_reference
asks = refl

to_made : {May : String → Database → Type 0} → Reach May Unit idle (record idle { db = made })
to_made = after start (transact made (ensure "v1" limits (some row) makes))

since :
    {May : String → Database → Type 0} {P : Type 0}
    → Reach May P (record idle { db = made }) (asked committed)
since =
    after
      (after
        (after start (transact uploaded (stage "b2" 60 500 900 uploaded (staged_with 60) stages)))
        (ask_delete "b2" 600 asks))
      (transact committed (
        commit context (first ∷ []) committed answer (record row { storage_used_bytes = 60 }) refl
          refl commits))

to_asked : Reach Anytime Unit idle (asked committed)
to_asked =
    after
      (after
        (after to_made (transact uploaded (stage "b2" 60 500 900 uploaded (staged_with 60) stages)))
        (ask_delete "b2" 600 asks))
      (transact committed (
        commit context (first ∷ []) committed answer (record row { storage_used_bytes = 60 }) refl
          refl commits))

-- A deletion that ends before the blob is staged again and committed; and a purge.
deleted : delete_blob_finish (delete_then true) uploaded "b2" ≡ made
unfolding runs delete_blob_finish account_for_deleted_blobs delete_blob_record delete_where
    sub_storage_used_bytes total_size
deleted = refl

to_emptied : Reach Unnamed Unit idle (record idle { db = made })
unfolding runs
to_emptied =
    subst (λ (d : Database). Reach Unnamed Unit idle (record idle { db = d })) deleted
      (after
        (after
          (after to_made
            (transact uploaded (stage "b2" 60 500 900 uploaded (staged_with 60) stages)))
          (ask_delete "b2" 600 asks))
        (end_delete [] "b2" [] refl refl))

to_committed : Reach Unnamed Unit idle (record idle { db = committed })
to_committed =
    after
      (after to_emptied
        (transact uploaded (stage "b2" 60 500 900 uploaded (staged_with 60) stages)))
      (transact committed (
        commit context (first ∷ []) committed answer (record row { storage_used_bytes = 60 }) refl
          refl commits))

to_purged : Reach Anytime Unit idle (record idle { db = purge_vault_state made })
to_purged = after to_made (purge tt)

Reach-IsSound_example : IsSound committed
Reach-IsSound_example = Reach-IsSound to_committed

-- The deletion ends after the commit: the record is gone, the counter is right.
Reach-IsAccounted_example : IsAccounted (delete_blob_finish (delete_then true) committed "b2")
Reach-IsAccounted_example = Reach-IsAccounted (after to_asked (end_delete [] "b2" [] refl tt))

Reach-IsLogged_example : IsLogged (purge_vault_state made)
Reach-IsLogged_example = Reach-IsLogged to_purged

Reach-Grown_example : Grown 0 made committed
Reach-Grown_example =
    Reach-Grown {s = record idle { db = made }} {s' = asked committed} 0 to_made since refl
