-- ===== src/Blobs/Service.antt =====
-- src/sync-coordinator/application/services/blob-service.ts. A call returns the database it leaves
-- and the effects it asks for, in order. The token's check and the object store come first and
-- between the transactions: what they answer is an argument.
use synch_api.Prelude.{
  ℕ, ◌+◌, String, Bool, true, false, Option, none, some, List, [], ◌∷◌, max, if◌then◌else◌, is_some,
  same?,
}
use synch_api.Policy.Blob.{StageRejection, StageDecision, sync_paused, rejected, staged_with}
use synch_api.Policy.BlobGc.{ReferenceFacts, is_blob_pinned, staged, same_state}
use synch_api.Store.Rows.{Blob, Database, Result, CoordinatorError, ok, err, vault_mismatch, ◌>>=◌}
use synch_api.Store.References.{read_blob_reference_facts}
use synch_api.Store.Blobs.{read_blob, delete_blob_record}
use synch_api.Store.State.{read_sync_pause, read_vault_id}
use synch_api.Store.Rows
use synch_api.Blobs.Records.{stage_blob_record, account_for_deleted_blobs}

-- What a service asks of the scheduler, the health service and the object store.
pub data Effect : Type 0 where
  schedule_gc : (due_at now : ℕ) → Effect
  schedule_summary_flush notify_storage_status_changed : Effect
  delete_object : (blob_id : String) → Effect

pub data StageFailure : Type 0 where
  paused : StageFailure
  refused : StageRejection → StageFailure
  failed : CoordinatorError → StageFailure

pub data StageReply : Type 0 where
  done : List Effect → StageReply
  failure : StageFailure → StageReply

abbrev reply_to : ℕ → ℕ → StageDecision → StageReply
reply_to now grace (sync_paused reason) = failure paused
reply_to now grace (rejected why) = failure (refused why)
reply_to now grace (staged_with delta) =
    done (schedule_gc (now + grace) now ∷ notify_storage_status_changed ∷ [])

-- `stageBlob` after its token was verified; a throw inside the transaction keeps the database.
unfoldable pub stage_blob : ℕ → Database → String → ℕ → ℕ → Database × StageReply
stage_blob grace db blob_id size_bytes now =
    elim (stage_blob_record db blob_id size_bytes now (now + grace)) [
      | err why ↦ (db, failure (failed why))
      | ok (db', decision) ↦ (db', reply_to now grace decision)
    ]

abbrev gc_for : ℕ → Option Blob → List Effect
gc_for now none = []
gc_for now (some b) = elim b.delete_after [
  | none ↦ []
  | some deadline ↦
      if same_state b.state staged then schedule_gc (max now deadline) now ∷ [] else []
]

-- `abortStagedBlob` writes nothing: the record and its reservation stay until collection.
unfoldable pub abort_staged_blob : Database → String → String → ℕ → Result (List Effect)
abort_staged_blob db vault_id blob_id now =
    if same? (read_vault_id db.state) vault_id
    then ok (gc_for now (read_blob blob_id db.blobs))
    else err vault_mismatch

-- The two halves of `deleteBlob`: what it reads before the object is deleted, and the transaction
-- after that. The object store's answer is awaited in between.
pub data DeleteCheck : Type 0 where
  keep : DeleteCheck
  delete_then : (has_record : Bool) → DeleteCheck

abbrev delete_decision : ReferenceFacts → Option Blob → DeleteCheck
delete_decision facts none = delete_then false
delete_decision facts (some b) = if is_blob_pinned facts then keep else delete_then true

unfoldable pub delete_blob_check : Database → String → ℕ → Result DeleteCheck
delete_blob_check db blob_id now =
    if is_some (read_sync_pause db.state)
    then err Rows.sync_paused
    else ok
        (delete_decision (read_blob_reference_facts db blob_id now) (read_blob blob_id db.blobs))

unfoldable pub delete_blob_finish : DeleteCheck → Database → String → Database
delete_blob_finish keep db blob_id = db
delete_blob_finish (delete_then false) db blob_id = db
delete_blob_finish (delete_then true) db blob_id =
    account_for_deleted_blobs db (delete_blob_record blob_id none db.blobs)

-- `deleteBlob` with nothing in between.
unfoldable pub delete_blob : Database → String → ℕ → Result Database
delete_blob db blob_id now =
    delete_blob_check db blob_id now >>= λ check. ok (delete_blob_finish check db blob_id)
