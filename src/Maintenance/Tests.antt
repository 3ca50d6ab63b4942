-- ===== src/Maintenance/Tests.antt =====
-- The scheduler on concrete tables.
use synch_api.Prelude.{
  ℕ, suc, ◌≡◌, ◌≢◌, ◌%◌, ◌≤◌, ◌<◌, refl, ap, same, true, false, String, Option, none, some, [], ◌∷◌,
  arith, min, ◌*◌, ◌+◌, string_dec,
}
use synch_api.Maintenance.Jobs.{
  Job, Scheduler, read_next_due_at, maintenance_job_due_at, maintenance_retry_delay_ms, defer,
  new_job, row_of, read_next_due_job, next_due_row, reschedule_job, upsert_job, update_job,
}
use synch_api.Maintenance.Armed.{IsArmed, DueBy, HasRow, defer-DueBy}
use synch_api.Policy.Health.{
  HealthFacts, next_health_summary_flush_at, future_due_from_age, commit_warning_due, earlier,
}
use synch_api.Maintenance.Summary.{
  Flushing, schedule_summary_flush, summary_key, flush_job, upserting,
}
use synch_api.Maintenance.Planned.{
  IsPlanned, schedule_summary_flush-HasRow, flush_job-IsPlanned, flush_job-forgets,
}
use synch_api.Maintenance.Delay.{
  maintenance_retry_delay_ms-doubles, maintenance_job_due_at-IsBucketed,
}
use synch_api.Maintenance.Drain.{Handler, done, drain, drain_rounds, handled}

abbrev summary : Job
summary = new_job "health_summary_flush" 700_000 100_000

abbrev collection : Job
collection = new_job "blob_gc" 1_800_000 100_000

abbrev armed : Scheduler
armed = record { jobs = summary ∷ collection ∷ []; alarm = some 700_000 }

armed-IsArmed : IsArmed armed
unfolding read_next_due_at
armed-IsArmed = refl

defer-DueBy_example :
    IsArmed (defer "blob_gc" 1_000_000 200_000 armed)
    × DueBy
        (maintenance_job_due_at "blob_gc" 1_000_000)
        (defer "blob_gc" 1_000_000 200_000 armed).alarm
    × HasRow "blob_gc"
        (maintenance_job_due_at "blob_gc" 1_000_000)
        (defer "blob_gc" 1_000_000 200_000 armed).jobs
defer-DueBy_example = defer-DueBy "blob_gc" 1_000_000 200_000 armed armed-IsArmed

maintenance_retry_delay_ms-doubles_example :
    (maintenance_retry_delay_ms 1 ≡ 30 * 1000)
    × (maintenance_retry_delay_ms 5 ≡ min (15 * 60 * 1000) (2 * maintenance_retry_delay_ms 4))
    × (30 * 1000 ≤ maintenance_retry_delay_ms 3)
maintenance_retry_delay_ms-doubles_example = maintenance_retry_delay_ms-doubles 3

other_key : ◌≢◌ {A = String} "health_summary_flush" "blob_gc"
unfolding string_dec
other_key e =
    let differs : false ≡ true = ap (λ (s : String). same s "blob_gc") e in ground (arith, differs)

maintenance_job_due_at-IsBucketed_example :
    (maintenance_job_due_at "blob_gc" 1_000_001 % 1_800_000 ≡ 0)
    × (1_000_001 ≤ maintenance_job_due_at "blob_gc" 1_000_001)
    × (maintenance_job_due_at "blob_gc" 1_000_001 < 1_000_001 + 1_800_000)
    × (maintenance_job_due_at "health_summary_flush" 1_000_001 ≡ 1_000_001)
maintenance_job_due_at-IsBucketed_example =
    maintenance_job_due_at-IsBucketed "health_summary_flush" 1_000_001 other_key

-- Every handler counts its calls and is due again an hour later.
abbrev hourly : Handler ℕ
hourly now (scheduler, calls) = ((scheduler, suc calls), done (some (now + 3_600_000)))

abbrev handlers : String → Option (Handler ℕ)
handlers key = some hourly

drains : (drain handlers 2_000_000 (armed, 0)).1 ≡ 2
unfolding drain drain_rounds handled read_next_due_job next_due_row reschedule_job upsert_job
    update_job row_of maintenance_job_due_at string_dec
drains = refl

-- A vault in which nothing waits: no later flush is planned.
abbrev quiet : HealthFacts
quiet = record {
  storage_used_bytes = 10;
  storage_limit_bytes = 100;
  oldest_staged_blob_age_ms = none;
  oldest_pending_delete_age_ms = none;
  collectible_pending_delete_blob_count = 0;
  active_local_vault_count = 0;
  last_commit_at = none;
}

quiet_due : next_health_summary_flush_at quiet 700_000 ≡ none
unfolding next_health_summary_flush_at future_due_from_age commit_warning_due earlier
quiet_due = refl

abbrev planned : Flushing
planned = record { scheduler = armed; scheduled_flush_at = some 700_000 }

planned-IsPlanned : IsPlanned planned
unfolding row_of string_dec
planned-IsPlanned t e = (summary, refl, ground arith)

schedule_summary_flush-HasRow_example :
    IsArmed (schedule_summary_flush 400_000 planned).scheduler
    × HasRow summary_key 1_000_000 (schedule_summary_flush 400_000 planned).scheduler.jobs
    × IsPlanned (schedule_summary_flush 400_000 planned)
schedule_summary_flush-HasRow_example =
    schedule_summary_flush-HasRow 400_000 planned armed-IsArmed planned-IsPlanned

flush_job-IsPlanned_example : IsPlanned (flush_job summary 700_000 none (upserting quiet) planned)
flush_job-IsPlanned_example = flush_job-IsPlanned summary 700_000 none quiet planned refl

flush_job-forgets_example :
    row_of summary_key
      (flush_job summary 700_000 none
        (upserting quiet)
        (schedule_summary_flush 700_100 planned)).scheduler.jobs
    ≡ none
flush_job-forgets_example = flush_job-forgets summary 700_000 700_100 quiet planned refl quiet_due
