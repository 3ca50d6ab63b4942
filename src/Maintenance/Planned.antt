-- ===== src/Maintenance/Planned.antt =====
-- The memory of health-service.ts of its next flush, against the table of jobs.
use synch_api.Prelude.{
  ℕ, ◌+◌, ◌≡◌, refl, sym, subst, String, true, none, some, Option, List, [], ◌∷◌, arith, string_dec,
  Bool-cases, inl, inr, ◌*◌,
}
use synch_api.Policy.Health.{HealthFacts, next_health_summary_flush_at}
use synch_api.Maintenance.Jobs.{
  Job, defer, maintenance_job_due_at, reschedule_job, row_of, delete_job, restarted, new_job,
  upsert_job,
}
use synch_api.Maintenance.Armed.{IsArmed, HasRow, upsert_job-HasRow, defer-DueBy}
use synch_api.Maintenance.Drain.{done, settle}
use synch_api.Maintenance.Summary.{
  Flushing, upserting, summary_key, default_health_summary_flush_delay_ms, is_planned_by,
  schedule_summary_flush, flush_finish, flush_job, defer_next,
}

-- What the service takes for planned is in the table, no later.
abbrev pub IsPlanned : Flushing → Type 0
IsPlanned s = (t : ℕ) → s.scheduled_flush_at ≡ some t → HasRow summary_key t s.scheduler.jobs

summary_due : (t : ℕ) → maintenance_job_due_at summary_key t ≡ t
unfolding maintenance_job_due_at string_dec
summary_due t = refl

some-injective : {a b : ℕ} → some a ≡ some b → a ≡ b
some-injective e = cc

planned-row :
    (s : Flushing) (t : ℕ)
    → IsPlanned s
    → is_planned_by s.scheduled_flush_at t ≡ true
    → HasRow summary_key t s.scheduler.jobs
planned-row s t planned early = from s.scheduled_flush_at planned early
  where
    from :
        (o : Option ℕ)
        → ((u : ℕ) → o ≡ some u → HasRow summary_key u s.scheduler.jobs)
        → is_planned_by o t ≡ true
        → HasRow summary_key t s.scheduler.jobs
    from none rows early = cc
    from (some u) rows early = let (row, is, by) = rows u refl in (row, is, ground arith)

-- Where the alarm is set for the first row and what the service remembers as planned has a row: when
-- a summary is asked for, its job has a row that is due within ten minutes, and both still hold.
-- (The alarm is not set while its own handlers run, and a job that finds nothing to write leaves the
-- service with a plan that has no row.)
pub schedule_summary_flush-HasRow :
    (now : ℕ) (s : Flushing)
    → IsArmed s.scheduler
    → IsPlanned s
    → IsArmed (schedule_summary_flush now s).scheduler
      × HasRow summary_key (now + 10 * 60 * 1000) (schedule_summary_flush now s).scheduler.jobs
      × IsPlanned (schedule_summary_flush now s)
unfolding schedule_summary_flush
schedule_summary_flush-HasRow now s armed planned =
    elim (Bool-cases (is_planned_by s.scheduled_flush_at flush_at)) [
      | inl early ↦
          rw (schedule_summary_flush, early) (armed, planned-row s flush_at planned early, planned)
      | inr late ↦
          let (still, due, row) = defer-DueBy summary_key flush_at now s.scheduler armed in
          let by =
            subst
              (λ (t : ℕ). HasRow summary_key t (defer summary_key flush_at now s.scheduler).jobs)
              (summary_due flush_at) row in
          rw (schedule_summary_flush, late)
            (
              still,
              by,
              λ t e.
                  subst
                    (λ (u : ℕ).
                      HasRow summary_key u (defer summary_key flush_at now s.scheduler).jobs)
                    (some-injective e) by,
            )
    ]
  where
    flush_at : ℕ
    flush_at = now + default_health_summary_flush_delay_ms

reschedule_job-HasRow :
    (next now : ℕ) (jobs : List Job)
    → HasRow summary_key next (reschedule_job summary_key next now jobs)
unfolding reschedule_job
reschedule_job-HasRow next now jobs =
    subst
      (λ (t : ℕ).
        HasRow summary_key next (upsert_job (new_job summary_key t now) (restarted t now) jobs))
      (sym (summary_due next))
      (upsert_job-HasRow summary_key (restarted next now) jobs next now (λ j. (refl, omega arith)))

-- However the repository answers, the service's memory is true after a job that had facts to write.
pub flush_job-IsPlanned :
    (job : Job) (now : ℕ) (error : Option String) (facts : HealthFacts) (s : Flushing)
    → job.key ≡ summary_key
    → IsPlanned (flush_job job now error (upserting facts) s)
unfolding flush_job flush_finish
flush_job-IsPlanned job now none facts s is =
    from (next_health_summary_flush_at facts now) (defer_next _ now s.scheduler).jobs
  where
    from :
        (next : Option ℕ) (jobs : List Job) (t : ℕ)
        → next ≡ some t
        → HasRow summary_key t (settle now job (done next) jobs)
    from none jobs t e = cc
    from (some next) jobs t e =
        subst (λ (key : String). HasRow summary_key t (reschedule_job key next now jobs)) (sym is)
          (subst (λ (u : ℕ). HasRow summary_key u (reschedule_job summary_key next now jobs))
            (some-injective e) (reschedule_job-HasRow next now jobs))
flush_job-IsPlanned job now (some error) facts s is = λ t e. cc

row_of-delete_job : (key : String) (jobs : List Job) → row_of key (delete_job key jobs) ≡ none
unfolding row_of delete_job
row_of-delete_job key [] = refl
row_of-delete_job key (j ∷ js) = ground (arith, row_of-delete_job key js)

-- A summary that is asked for while a flush awaits the repository is forgotten: if the facts that
-- were read before plan no other flush, no job is left.
pub flush_job-forgets :
    (job : Job) (now asked : ℕ) (facts : HealthFacts) (s : Flushing)
    → job.key ≡ summary_key
    → next_health_summary_flush_at facts now ≡ none
    → row_of summary_key
        (flush_job job now none (upserting facts) (schedule_summary_flush asked s)).scheduler.jobs
      ≡ none
unfolding flush_job flush_finish
flush_job-forgets job now asked facts s is nothing_due =
    rw (nothing_due, is) (row_of-delete_job summary_key _)
