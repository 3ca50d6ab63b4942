-- ===== src/Gc/Arms.antt =====
-- The job that a collection leaves behind for the next one.
use synch_api.Prelude.{
  ℕ, ◌≤◌, ◌≡◌, refl, sym, subst, ap, ◌∙◌, String, Bool, true, false, Option, some, List, arith,
  string_dec, max,
}
use synch_api.Policy.BlobGc.{live, same_state}
use synch_api.Store.Rows.{Blob, Database}
use synch_api.Store.Blobs.{read_blob}
use synch_api.Maintenance.Jobs.{Scheduler, defer, maintenance_job_due_at}
use synch_api.Maintenance.Armed.{IsArmed, DueBy, HasRow, DueBy-alarm, defer-DueBy, row_of-defer}
use synch_api.Gc.Queries.{Candidate, has_facts_free}
use synch_api.Gc.Covers.{read_next_gc_at-InTime}
use synch_api.Store.References.{read_blob_reference_facts}
use synch_api.Gc.Keeps.{run_gc_complete-db}
use synch_api.Gc.Runs.{
  Vault, Answer, BatchOutcome, deleted, batch_failed, store_failed, RunBlobGcOptions, Ended,
  next_gc, run_gc_finish, run_gc_end, record_completed, flush_if, schedule_if, read_next_gc_at,
  delete_collectible_batch,
}

-- The job of the next collection has a row that is due by the bucket of `t`, and the alarm is set.
abbrev pub Planned : ℕ → Scheduler → Type 0
Planned t s =
    IsArmed s
    × HasRow "blob_gc" (maintenance_job_due_at "blob_gc" t) s.jobs
    × DueBy (maintenance_job_due_at "blob_gc" t) s.alarm

defer-Planned :
    (t due_at now : ℕ) (s : Scheduler)
    → Planned t s
    → Planned t (defer "health_summary_flush" due_at now s)
unfolding string_dec
defer-Planned t due_at now s (armed, (j, found, early), due) =
    let armed' = (defer-DueBy "health_summary_flush" due_at now s armed).0 in
    let row : HasRow "blob_gc" (maintenance_job_due_at "blob_gc" t)
        (defer "health_summary_flush" due_at now s).jobs =
      (j, row_of-defer "blob_gc" "health_summary_flush" due_at now s refl ∙ found, early) in
    (armed', row, DueBy-alarm _ "blob_gc" _ armed' row)

flush_if-Planned :
    (t now : ℕ) (b : Bool) (v : Vault)
    → Planned t v.scheduler
    → Planned t (flush_if b now v).scheduler
flush_if-Planned t now true v p = defer-Planned t now now v.scheduler p
flush_if-Planned t now false v p = p

module _ (options : RunBlobGcOptions) (count now : ℕ) (w v' : Vault) (next : Option ℕ) (id : String)
    (b : Blob) (d : ℕ) where
  complete-Planned :
      IsArmed w.scheduler
      → options.schedule_next_gc ≡ true
      → run_gc_end options now w (deleted count) ≡ (v', next_gc next)
      → read_blob id v'.db.blobs ≡ some b
      → same_state b.state live ≡ false
      → b.delete_after ≡ some d
      → has_facts_free v'.db now b ≡ true
      → (t : ℕ) × (next ≡ some t) × (t ≤ max now d) × Planned t v'.scheduler
  unfolding read_blob_reference_facts
  complete-Planned armed plans e found dead has free =
      let is : (record_completed now w).db ≡ v'.db =
        sym (run_gc_complete-db options count now w) ∙ ap (λ (r : Vault × Ended). r.0.db) e in
      let (t, planned, after, before) =
        read_next_gc_at-InTime w.db now id b d
          (subst (λ (db : Database). read_blob id db.blobs ≡ some b) (sym is) found) dead has
          (subst (λ (db : Database). has_facts_free db now b ≡ true) (sym is) free) in
      (
        t,
        next-is e ∙ planned,
        before,
        subst (λ (v : Vault). Planned t v.scheduler) (ap (λ (r : Vault × Ended). r.0) e)
            (flush_if-Planned t now options.schedule_health_flush _ (scheduled t planned)),
      )
    where
      next-is :
          run_gc_end options now w (deleted count) ≡ (v', next_gc next)
          → next ≡ read_next_gc_at w.db now
      next-is e = ground arith

      scheduled :
          (t : ℕ)
          → read_next_gc_at w.db now ≡ some t
          → Planned t
              (schedule_if options.schedule_next_gc (read_next_gc_at w.db now) now w).scheduler
      scheduled t planned =
          let (armed', due, row) = defer-DueBy "blob_gc" t now w.scheduler armed in
          rw (plans, planned) (armed', row, due)

-- After a collection whose objects all went, that was asked to plan the next one itself, and that
-- found the alarm set for the first job, a record that is to be collected has a planned collection:
-- due no later than the bucket of the record's deadline, or of now where that has passed. (The alarm
-- of the scheduler runs collections that leave the planning to it.)
pub run_gc_finish-Planned :
    (object_key : String → String) (options : RunBlobGcOptions) (now : ℕ) (answer : Answer)
    (cs : List Candidate) (v v' : Vault) (next : Option ℕ) (id : String) (b : Blob) (d : ℕ)
    → IsArmed v.scheduler
    → options.schedule_next_gc ≡ true
    → run_gc_finish object_key options now answer cs v ≡ (v', next_gc next)
    → read_blob id v'.db.blobs ≡ some b
    → same_state b.state live ≡ false
    → b.delete_after ≡ some d
    → has_facts_free v'.db now b ≡ true
    → (t : ℕ) × (next ≡ some t) × (t ≤ max now d) × Planned t v'.scheduler
unfolding run_gc_finish
run_gc_finish-Planned object_key options now answer cs v v' next id b d armed plans done found dead
      has free =
    by_outcome (delete_collectible_batch object_key answer cs now v.db).1 done
  where
    by_outcome :
        (outcome : BatchOutcome)
        → run_gc_end options now
            (record v { db = (delete_collectible_batch object_key answer cs now v.db).0 })
            outcome
          ≡ (v', next_gc next)
        → (t : ℕ) × (next ≡ some t) × (t ≤ max now d) × Planned t v'.scheduler
    by_outcome (deleted count) e =
        complete-Planned options count now
          (record v { db = (delete_collectible_batch object_key answer cs now v.db).0 }) v' next id
          b d armed plans e found dead has free
    by_outcome (batch_failed keys count) e = absurd (ground arith)
    by_outcome store_failed e = absurd (ground arith)
