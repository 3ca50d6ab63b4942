-- ===== src/Gc/Keeps.antt =====
-- Collection against the invariants of the database, whatever the object store answers and whatever
-- happens to the database while it does.
use synch_api.Prelude.{
  ℕ, ◌≡◌, inl, inr, refl, sym, subst, ap, ◌∙◌, String, Bool, true, false, Option, none, some, List,
  [], ◌∷◌, Bool-cases, Option-cases, or_else, truthy,
}
use synch_api.Store.Rows.{Database}
use synch_api.Store.State.{State, read_vault_id, record_gc_completed}
use synch_api.Store.Sizes.{total_size}
use synch_api.Blobs.Records.{mark_unpinned_blob_pending_delete}
use synch_api.Blobs.Accounting.{Balances}
use synch_api.Blobs.Live.{
  IsSound, delete_collectible_blob_records-IsSound, mark_unpinned_blob_pending_delete-IsSound,
}
use synch_api.Gc.Queries.{Candidate}
use synch_api.Gc.Runs.{
  Vault, Answer, thrown, answered, BatchOutcome, deleted, batch_failed, store_failed,
  RunBlobGcOptions, delete_collectible_batch, succeeded_blob_ids, run_gc_start, run_gc_finish,
  run_gc_end, run_gc_complete, record_completed, flush_if, schedule_if, schedule_next,
  collect_distinct, read_next_gc_at, expire, delete_records, collect_each, collect_purged_start,
  collect_purged_finish, distinct_from,
}

delete_records-IsSound :
    (ids : List String) (now : ℕ) (db : Database)
    → IsSound db
    → IsSound (delete_records ids now db).0
delete_records-IsSound [] now db s = s
delete_records-IsSound (id ∷ ids) now db s =
    delete_collectible_blob_records-IsSound db (id ∷ ids) now s

delete_collectible_batch-IsSound :
    (object_key : String → String) (answer : Answer) (cs : List Candidate) (now : ℕ) (db : Database)
    → IsSound db
    → IsSound (delete_collectible_batch object_key answer cs now db).0
unfolding delete_collectible_batch
delete_collectible_batch-IsSound object_key answer [] now db s = s
delete_collectible_batch-IsSound object_key thrown (c ∷ cs) now db s = s
delete_collectible_batch-IsSound object_key (answered keys) (c ∷ cs) now db s =
    delete_records-IsSound (succeeded_blob_ids object_key keys (c ∷ cs)) now db s

expire-IsSound : (now : ℕ) (db : Database) → IsSound db → IsSound (expire now db)
expire-IsSound now db s = record { live = s.live; accounted = s.accounted }

run_gc_start-IsSound :
    (vault_id : Option String) (may_collect : String → Bool) (now clock : ℕ) (v : Vault)
    → IsSound v.db
    → IsSound (run_gc_start vault_id may_collect now clock v).0.db
unfolding run_gc_start
run_gc_start-IsSound vault_id may_collect now clock v s =
    elim (Option-cases (truthy (some (or_else vault_id (or_else (read_vault_id v.db.state) ""))))) [
      | inl absent ↦ rw (run_gc_start, absent) s
      | inr (id, found) ↦ elim (Bool-cases (may_collect id)) [
        | inl may ↦ rw (run_gc_start, found) (rw may (expire-IsSound now v.db s))
        | inr held ↦ rw (run_gc_start, found) (rw held s)
      ]
    ]

Balances-gc_completed :
    (now total : ℕ) (state : State)
    → Balances state total
    → Balances (record_gc_completed now state) total
unfolding record_gc_completed
Balances-gc_completed now total none h = h
Balances-gc_completed now total (some st) h = h

record_completed-IsSound :
    (now : ℕ) (v : Vault) → IsSound v.db → IsSound (record_completed now v).db
record_completed-IsSound now v s = record {
  live = s.live;
  accounted = Balances-gc_completed now (total_size v.db.blobs) v.db.state s.accounted;
}

flush_if-db : (b : Bool) (now : ℕ) (v : Vault) → (flush_if b now v).db ≡ v.db
flush_if-db true now v = refl
flush_if-db false now v = refl

schedule_if-db :
    (b : Bool) (next : Option ℕ) (now : ℕ) (v : Vault) → (schedule_if b next now v).db ≡ v.db
schedule_if-db true none now v = refl
schedule_if-db true (some t) now v = refl
schedule_if-db false next now v = refl

-- What a run does to the database after the deletion is to note its time.
pub run_gc_complete-db :
    (options : RunBlobGcOptions) (count now : ℕ) (v : Vault)
    → (run_gc_complete options count now v).0.db ≡ (record_completed now v).db
run_gc_complete-db options count now v =
    let scheduled = schedule_if options.schedule_next_gc (read_next_gc_at v.db now) now v in
    flush_if-db options.schedule_health_flush now (record_completed now scheduled)
    ∙ ap (λ (db : Database). record db { state = record_gc_completed now db.state })
        (schedule_if-db options.schedule_next_gc (read_next_gc_at v.db now) now v)

run_gc_end-IsSound :
    (options : RunBlobGcOptions) (now : ℕ) (v : Vault) (outcome : BatchOutcome)
    → IsSound v.db
    → IsSound (run_gc_end options now v outcome).0.db
run_gc_end-IsSound options now v (deleted count) s =
    subst IsSound (sym (run_gc_complete-db options count now v)) (record_completed-IsSound now v s)
run_gc_end-IsSound options now v (batch_failed keys count) s = s
run_gc_end-IsSound options now v store_failed s = s

-- Both halves of a run, the one before the object store is asked and the one after it has answered
-- in whichever way, keep the two invariants of the database, each of the one that it finds.
pub run_gc-IsSound :
    (vault_id : Option String) (may_collect : String → Bool) (object_key : String → String)
    (options : RunBlobGcOptions) (now clock : ℕ) (answer : Answer) (cs : List Candidate)
    (v w : Vault)
    → IsSound v.db
    → IsSound w.db
    → IsSound (run_gc_start vault_id may_collect now clock v).0.db
      × IsSound (run_gc_finish object_key options now answer cs w).0.db
unfolding run_gc_finish
run_gc-IsSound vault_id may_collect object_key options now clock answer cs v w s t = (
  run_gc_start-IsSound vault_id may_collect now clock v s,
  run_gc_end-IsSound options now _ (delete_collectible_batch object_key answer cs now w.db).1
      (delete_collectible_batch-IsSound object_key answer cs now w.db t),
)

collect_each-IsSound :
    (now : ℕ) (ids : List String) (db : Database) → IsSound db → IsSound (collect_each now ids db).0
unfolding collect_each
collect_each-IsSound now [] db s = s
collect_each-IsSound now (id ∷ ids) db s =
    collect_each-IsSound now ids (mark_unpinned_blob_pending_delete db id now)
      (mark_unpinned_blob_pending_delete-IsSound db id now s)

collect_purged_start-IsSound :
    (may : Bool) (ids : List String) (now : ℕ) (db : Database)
    → IsSound db
    → IsSound (collect_purged_start may ids now db).0
unfolding collect_purged_start
collect_purged_start-IsSound false ids now db s = s
collect_purged_start-IsSound true ids now db s = from_distinct (distinct_from [] ids)
  where
    from_distinct : (found : List String) → IsSound (collect_distinct now found db).0
    from_distinct [] = s
    from_distinct (id ∷ rest) =
        collect_each-IsSound now (id ∷ rest) (expire now db) (expire-IsSound now db s)

schedule_next-IsSound : (now : ℕ) (v : Vault) → IsSound v.db → IsSound (schedule_next now v).db
schedule_next-IsSound now v s =
    subst IsSound (sym (schedule_if-db true (read_next_gc_at v.db now) now v)) s

-- Both halves of the collection of purged blobs keep the two invariants of the database, each of the
-- one that it finds.
pub collect_purged-IsSound :
    (may : Bool) (ids : List String) (object_key : String → String) (now : ℕ) (answer : Answer)
    (cs : List Candidate) (db : Database) (v : Vault)
    → IsSound db
    → IsSound v.db
    → IsSound (collect_purged_start may ids now db).0
      × IsSound (collect_purged_finish object_key now answer cs v).db
unfolding collect_purged_finish
collect_purged-IsSound may ids object_key now answer cs db v s t = (
  collect_purged_start-IsSound may ids now db s,
  schedule_next-IsSound now _ (delete_collectible_batch-IsSound object_key answer cs now v.db t),
)
