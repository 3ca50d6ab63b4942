-- ===== src/Maintenance/Summary.antt =====
-- src/sync-coordinator/application/services/health-service.ts: when the summary of a vault's health
-- is written. `flushSummary` awaits the repository between its two halves; what the health store
-- reads and what the repository answers are arguments.
use synch_api.Prelude.{
  ℕ, ◌+◌, ◌*◌, String, Bool, true, false, Option, none, some, leb, if◌then◌else◌,
}
use synch_api.Policy.Health.{HealthFacts, next_health_summary_flush_at}
use synch_api.Maintenance.Jobs.{Job, Scheduler, defer}
use synch_api.Maintenance.Drain.{Outcome, done, threw, settle}

abbrev pub default_health_summary_flush_delay_ms : ℕ
default_health_summary_flush_delay_ms = 10 * 60 * 1000

abbrev pub summary_key : String
summary_key = "health_summary_flush"

-- The scheduler, and the field `scheduledFlushAt` of the service.
pub record Flushing : Type 0 where
  pub scheduler : Scheduler
  pub scheduled_flush_at : Option ℕ

abbrev pub is_planned_by : Option ℕ → ℕ → Bool
is_planned_by none flush_at = false
is_planned_by (some at) flush_at = leb at flush_at

unfoldable pub schedule_summary_flush : ℕ → Flushing → Flushing
schedule_summary_flush now s =
    let flush_at = now + default_health_summary_flush_delay_ms in
    if is_planned_by s.scheduled_flush_at flush_at then s else record {
      scheduler = defer summary_key flush_at now s.scheduler;
      scheduled_flush_at = some flush_at;
    }

-- What is read before the repository is called: nothing to write, or the facts of the summary.
pub data FlushStart : Type 0 where
  nothing : FlushStart
  upserting : HealthFacts → FlushStart

unfoldable pub flush_start : Bool → Option HealthFacts → FlushStart
flush_start false snapshot = nothing
flush_start true none = nothing
flush_start true (some facts) = upserting facts

abbrev pub defer_next : Option ℕ → ℕ → Scheduler → Scheduler
defer_next none now s = s
defer_next (some next) now s = defer summary_key next now s

-- What follows: `error` is what the repository threw, if it did.
unfoldable pub flush_finish : Bool → ℕ → Option String → FlushStart → Flushing → Flushing × Outcome
flush_finish throw_on_error now error nothing s = (s, done none)
flush_finish throw_on_error now none (upserting facts) s =
    let next = next_health_summary_flush_at facts now in
    (record { scheduler = defer_next next now s.scheduler; scheduled_flush_at = next }, done next)
flush_finish true now (some error) (upserting facts) s =
    (record s { scheduled_flush_at = none }, threw error)
flush_finish false now (some error) (upserting facts) s = (
  record { scheduler = defer summary_key now now s.scheduler; scheduled_flush_at = none },
  done none,
)

-- The maintenance job of the summary: the handler of `handleAlarm`, and what `drain` does with its
-- answer.
unfoldable pub flush_job : Job → ℕ → Option String → FlushStart → Flushing → Flushing
flush_job job now error start s =
    let (flushed, outcome) = flush_finish true now error start s in
    record flushed {
      scheduler = record flushed.scheduler { jobs = settle now job outcome flushed.scheduler.jobs };
    }
