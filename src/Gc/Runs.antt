-- ===== src/Gc/Runs.antt =====
-- src/sync-coordinator/application/services/blob-gc-service.ts. A run gives way to the object store
-- once, so it has two halves: the database may be another when the second starts. The store answers
-- with the keys that it could not delete, or throws, or with whether the vault may be collected.
use synch_api.Prelude.{
  ℕ, ◌+◌, ◌*◌, String, Bool, true, false, not, Option, none, some, List, [], ◌∷◌, ◌++◌, ltb, length,
  if◌then◌else◌, or_else, select, truthy, map,
}
use synch_api.Policy.BlobGc.{
  CollectionDecision, collectible, retained, decide_blob_collection, earliest_gc_deadline,
}
use synch_api.Store.Rows.{Database}
use synch_api.Store.State.{read_vault_id, record_gc_completed}
use synch_api.Store.Versions.{contains, add_distinct, expire_entry_versions}
use synch_api.Blobs.Records.{delete_collectible_blob_records, mark_unpinned_blob_pending_delete}
use synch_api.Maintenance.Jobs.{Scheduler, defer}
use synch_api.Gc.Queries.{
  Candidate, list_collectible_blobs, read_collectible_blob, read_gc_deadlines,
}

abbrev pub gc_batch_size : ℕ
gc_batch_size = 1000

-- The vault's database and its scheduler, and what the health service was asked for: to tell the
-- clients of the storage status, and to plan a summary.
pub record Vault : Type 0 where
  pub db : Database
  pub scheduler : Scheduler
  pub notified : Bool
  pub summary_asked : Bool

unfoldable pub read_next_gc_at : Database → ℕ → Option ℕ
read_next_gc_at db now = earliest_gc_deadline (read_gc_deadlines db now) now

abbrev pub schedule_at : ℕ → ℕ → Vault → Vault
schedule_at due_at now v = record v { scheduler = defer "blob_gc" due_at now v.scheduler }

abbrev pub schedule_maybe : Option ℕ → ℕ → Vault → Vault
schedule_maybe none now v = v
schedule_maybe (some due_at) now v = schedule_at due_at now v

abbrev pub schedule_next : ℕ → Vault → Vault
schedule_next now v = schedule_maybe (read_next_gc_at v.db now) now v

abbrev pub schedule_now : ℕ → Vault → Vault
schedule_now now v = schedule_at now now v

abbrev is_collected : CollectionDecision → Bool
is_collected collectible = true
is_collected (retained why) = false

abbrev pub is_collectible : ℕ → Candidate → Bool
is_collectible now c = is_collected (
    decide_blob_collection
      (record {
        state = c.blob.state;
        delete_after = c.blob.delete_after;
        references = c.reference_facts;
      })
      now)

-- What `deleteMany` comes back with.
pub data Answer : Type 0 where
  thrown : Answer
  answered : (failed_keys : List String) → Answer

-- A BlobObjectBatchDeleteError is `batch_failed`; another error is `store_failed`.
pub data BatchOutcome : Type 0 where
  deleted : (count : ℕ) → BatchOutcome
  batch_failed : (failed_keys : List String) (deleted_count : ℕ) → BatchOutcome
  store_failed : BatchOutcome

abbrev pub blob_ids : List Candidate → List String
blob_ids cs = map (λ (c : Candidate). c.blob.blob_id) cs

-- The blobs whose objects went.
abbrev pub succeeded_blob_ids : (String → String) → List String → List Candidate → List String
succeeded_blob_ids object_key failed_keys cs =
    blob_ids (select (λ (c : Candidate). not (contains (object_key c.blob.blob_id) failed_keys)) cs)

abbrev pub delete_records : List String → ℕ → Database → Database × ℕ
delete_records [] now db = (db, 0)
delete_records (id ∷ ids) now db =
    let (db', rows) = delete_collectible_blob_records db (id ∷ ids) now in (db', length rows)

abbrev batch_outcome : List String → ℕ → BatchOutcome
batch_outcome [] count = deleted count
batch_outcome (key ∷ keys) count = batch_failed (key ∷ keys) count

-- `deleteCollectibleBatch` from the store's answer on; an empty batch asks the store nothing.
unfoldable pub delete_collectible_batch :
    (String → String) → Answer → List Candidate → ℕ → Database → Database × BatchOutcome
delete_collectible_batch object_key answer [] now db = (db, deleted 0)
delete_collectible_batch object_key thrown (c ∷ cs) now db = (db, store_failed)
delete_collectible_batch object_key (answered failed_keys) (c ∷ cs) now db =
    let (db', count) = delete_records (succeeded_blob_ids object_key failed_keys (c ∷ cs)) now db in
    (db', batch_outcome failed_keys count)

abbrev pub notify_if : Bool → Vault → Vault
notify_if b v = record v { notified = if b then true else v.notified }

-- What a run asks first: nothing without a vault, and a retry in an hour if it may not collect.
pub data Begun : Type 0 where
  no_vault : Begun
  held_back : (retry_at : ℕ) → Begun
  begun : (vault_id : String) (collectible : List Candidate) → Begun

abbrev pub expire : ℕ → Database → Database
expire now db = record db { versions = expire_entry_versions now db.versions }

-- The half of `runGc` before the object store is asked; `clock` is the time that the scheduler reads.
unfoldable pub run_gc_start :
    Option String → (String → Bool) → (now clock : ℕ) → Vault → Vault × Begun
run_gc_start vault_id may_collect now clock v =
    elim (truthy (some (or_else vault_id (or_else (read_vault_id v.db.state) "")))) [
      | none ↦ (v, no_vault)
      | some id ↦
          let db = expire now v.db in
          if may_collect id
          then (
            record v { db = db },
            begun id (select (is_collectible now) (list_collectible_blobs db now gc_batch_size)),
          )
          else (schedule_at (now + 60 * 60 * 1000) clock v, held_back (now + 60 * 60 * 1000))
    ]

pub record RunBlobGcOptions : Type 0 where
  pub schedule_health_flush : Bool
  pub schedule_next_gc : Bool

-- `if (options.scheduleNextGc ?? true) …` and `if (options.scheduleHealthFlush ?? true) …`
abbrev pub schedule_if : Bool → Option ℕ → ℕ → Vault → Vault
schedule_if true next_gc_at now v = schedule_maybe next_gc_at now v
schedule_if false next_gc_at now v = v

abbrev pub flush_if : Bool → ℕ → Vault → Vault
flush_if true now v = record v { scheduler = defer "health_summary_flush" now now v.scheduler }
flush_if false now v = v

abbrev pub record_completed : ℕ → Vault → Vault
record_completed now v = record v {
  db = record v.db { state = record_gc_completed now v.db.state };
}

-- What follows a batch whose objects are all gone.
abbrev pub run_gc_complete : RunBlobGcOptions → ℕ → ℕ → Vault → Vault × Option ℕ
run_gc_complete options count now v =
    let next_gc_at = read_next_gc_at v.db now in
    (
      notify_if (ltb 0 count) (
          flush_if options.schedule_health_flush now
            (record_completed now (schedule_if options.schedule_next_gc next_gc_at now v))),
      next_gc_at,
    )

pub data Ended : Type 0 where
  next_gc : (next_gc_at : Option ℕ) → Ended
  threw : BatchOutcome → Ended

abbrev pub run_gc_end : RunBlobGcOptions → ℕ → Vault → BatchOutcome → Vault × Ended
run_gc_end options now v (deleted count) =
    let (v', next_gc_at) = run_gc_complete options count now v in (v', next_gc next_gc_at)
run_gc_end options now v (batch_failed keys count) =
    (notify_if (ltb 0 count) v, threw (batch_failed keys count))
run_gc_end options now v store_failed = (v, threw store_failed)

-- The half of `runGc` after the object store.
unfoldable pub run_gc_finish :
    (String → String) → RunBlobGcOptions → ℕ → Answer → List Candidate → Vault → Vault × Ended
run_gc_finish object_key options now answer blobs v =
    let (db, outcome) = delete_collectible_batch object_key answer blobs now v.db in
    run_gc_end options now (record v { db = db }) outcome

abbrev pub collect_found : ℕ → Option Candidate → List Candidate
collect_found now none = []
collect_found now (some c) = if is_collectible now c then c ∷ [] else []

-- The loop of `collectPurgedBlobs`, one transaction for each blob.
unfoldable pub collect_each : ℕ → List String → Database → Database × List Candidate
collect_each now [] db = (db, [])
collect_each now (id ∷ ids) db =
    let marked = mark_unpinned_blob_pending_delete db id now in
    let found = collect_found now (read_collectible_blob marked id now) in
    let (db', rest) = collect_each now ids marked in (db', found ++ rest)

-- `[...new Set(blobIds)]`
unfoldable pub distinct_from : List String → List String → List String
distinct_from seen [] = seen
distinct_from seen (id ∷ ids) = distinct_from (add_distinct id seen) ids

abbrev pub collect_distinct : ℕ → List String → Database → Database × Option (List Candidate)
collect_distinct now [] db = (db, none)
collect_distinct now (id ∷ ids) db =
    let (db', found) = collect_each now (id ∷ ids) (expire now db) in (db', some found)

-- The half of `collectPurgedBlobs` before the object store: nothing further if `none`.
unfoldable pub collect_purged_start :
    Bool → List String → ℕ → Database → Database × Option (List Candidate)
unfolding distinct_from
collect_purged_start false blob_ids now db = (db, none)
collect_purged_start true blob_ids now db = collect_distinct now (distinct_from [] blob_ids) db

abbrev pub deleted_count : BatchOutcome → ℕ
deleted_count (deleted count) = count
deleted_count (batch_failed keys count) = count
deleted_count store_failed = 0

-- The half after the object store, whose errors are logged.
unfoldable pub collect_purged_finish :
    (String → String) → ℕ → Answer → List Candidate → Vault → Vault
collect_purged_finish object_key now answer blobs v =
    let (db, outcome) = delete_collectible_batch object_key answer blobs now v.db in
    let scheduled = schedule_next now (record v { db = db }) in
    notify_if (ltb 0 (deleted_count outcome)) (record scheduled { summary_asked = true })
