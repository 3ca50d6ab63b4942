-- ===== src/Maintenance/Drain.antt =====
-- `drain` of src/sync-coordinator/adapters/outbound/scheduler/maintenance-scheduler.ts. The handlers
-- are arguments: they may use the scheduler and the rest of the world, of any type `W`.
use Prim.Native.String.{◌++◌}
use synch_api.Prelude.{ℕ, zero, suc, String, Option, none, some, List}
use synch_api.Maintenance.Jobs.{
  Job, Scheduler, read_next_due_job, delete_job, reschedule_job, reschedule_failed_job, rearm,
  max_drained_jobs_per_alarm,
}

-- What a handler answers: the next time it is due, or the text of what it threw.
pub data Outcome : Type 0 where
  done : (next_due_at : Option ℕ) → Outcome
  threw : (error : String) → Outcome

abbrev pub Handler : Type 0 → Type 0
Handler W = ℕ → Scheduler × W → (Scheduler × W) × Outcome

abbrev pub settle : ℕ → Job → Outcome → List Job → List Job
settle now job (done none) jobs = delete_job job.key jobs
settle now job (done (some next)) jobs = reschedule_job job.key next now jobs
settle now job (threw error) jobs = reschedule_failed_job job error now jobs

module _ {W : Type 0} (handlers : String → Option (Handler W)) (now : ℕ) where
  abbrev pub run_handler : Option (Handler W) → String → Scheduler × W → (Scheduler × W) × Outcome
  run_handler none key s = (s, threw ("No maintenance handler for " ++ key))
  run_handler (some handler) key s = handler now s

  -- What the job's handler leaves and answers.
  unfoldable pub handled : Job → Scheduler × W → (Scheduler × W) × Outcome
  handled job s = run_handler (handlers job.key) job.key s

  abbrev pub run_job : Job → Scheduler × W → Scheduler × W
  run_job job s =
      let ((scheduler, world), outcome) = handled job s in
      (record scheduler { jobs = settle now job outcome scheduler.jobs }, world)

  -- At most so many rounds of the loop.
  unfoldable pub drain_rounds : ℕ → Scheduler × W → Scheduler × W
  drain_rounds zero s = s
  drain_rounds (suc n) s = elim (read_next_due_job now s.0.jobs) [
    | none ↦ s
    | some job ↦ drain_rounds n (run_job job s)
  ]

  unfoldable pub drain : Scheduler × W → Scheduler × W
  drain s =
      let (scheduler, world) = drain_rounds max_drained_jobs_per_alarm s in (rearm scheduler, world)
