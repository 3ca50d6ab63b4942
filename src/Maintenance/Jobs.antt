-- ===== src/Maintenance/Jobs.antt =====
-- src/sync-coordinator/adapters/outbound/scheduler/maintenance-scheduler.ts: the table
-- maintenance_jobs, the alarm of the vault's object, and the operations on them. `key ASC` compares
-- code points, as SQLite's BINARY order of UTF-8 does. An UPDATE changes every row of the key.
use Prim.Native.String.{compare}
use Prim.Native.Nat.{Ordering}
use synch_api.Prelude.{
  ℕ, ◌+◌, ◌-◌, ◌*◌, ◌/◌, ◌^◌, String, Bool, true, false, not, ◌||◌, ◌&&◌, Option, none, some, List,
  [], ◌∷◌, min, ltb, leb, ◌==◌, if◌then◌else◌, same, is_some, ◌++◌,
}

abbrev pub max_drained_jobs_per_alarm : ℕ
max_drained_jobs_per_alarm = 16

abbrev pub maintenance_retry_min_ms : ℕ
maintenance_retry_min_ms = 30 * 1000

abbrev pub maintenance_retry_max_ms : ℕ
maintenance_retry_max_ms = 15 * 60 * 1000

abbrev pub blob_gc_alarm_bucket_ms : ℕ
blob_gc_alarm_bucket_ms = 30 * 60 * 1000

-- A row of maintenance_jobs.
pub record Job : Type 0 where
  pub key : String
  pub due_at : ℕ
  pub retry_count : ℕ
  pub last_error : Option String
  pub last_error_at : Option ℕ
  pub updated_at : ℕ

pub record Scheduler : Type 0 where
  pub jobs : List Job
  pub alarm : Option ℕ

abbrev pub is_maintenance_job_key : String → Bool
is_maintenance_job_key key = same key "blob_gc" || same key "health_summary_flush"

unfoldable pub maintenance_retry_delay_ms : ℕ → ℕ
maintenance_retry_delay_ms retry_count =
    min maintenance_retry_max_ms (maintenance_retry_min_ms * 2 ^ (retry_count - 1))

-- `Math.ceil(dueAt / BUCKET) * BUCKET` over the integers.
abbrev pub round_up : ℕ → ℕ → ℕ
round_up bucket t = (t + (bucket - 1)) / bucket * bucket

unfoldable pub maintenance_job_due_at : String → ℕ → ℕ
maintenance_job_due_at key due_at =
    if same key "blob_gc" then round_up blob_gc_alarm_bucket_ms due_at else due_at

abbrev key_before : Ordering → Bool
key_before Ordering.lt = true
key_before Ordering.eq = true
key_before Ordering.gt = false

-- ORDER BY due_at ASC, key ASC
abbrev pub comes_first : Job → Job → Bool
comes_first j k =
    ltb j.due_at k.due_at || ((j.due_at == k.due_at) && key_before (compare j.key k.key))

abbrev pub first_of : Job → Option Job → Job
first_of j none = j
first_of j (some k) = if comes_first j k then j else k

-- The first row with due_at <= now.
unfoldable pub next_due_row : ℕ → List Job → Option Job
next_due_row now [] = none
next_due_row now (j ∷ js) =
    let rest = next_due_row now js in if leb j.due_at now then some (first_of j rest) else rest

-- `!row || !isMaintenanceJobKey(row.key) ? null : row`
abbrev pub known_key : Option Job → Option Job
known_key none = none
known_key (some j) = if is_maintenance_job_key j.key then some j else none

unfoldable pub read_next_due_job : ℕ → List Job → Option Job
read_next_due_job now jobs = known_key (next_due_row now jobs)

abbrev pub least : ℕ → Option ℕ → ℕ
least a none = a
least a (some b) = min a b

unfoldable pub read_next_due_at : List Job → Option ℕ
read_next_due_at [] = none
read_next_due_at (j ∷ js) = some (least j.due_at (read_next_due_at js))

unfoldable pub row_of : String → List Job → Option Job
row_of key [] = none
row_of key (j ∷ js) = let rest = row_of key js in if same j.key key then some j else rest

unfoldable pub read_job : String → List Job → Option Job
read_job key jobs = known_key (row_of key jobs)

-- DELETE … WHERE key = ?
unfoldable pub delete_job : String → List Job → List Job
delete_job key [] = []
delete_job key (j ∷ js) = let rest = delete_job key js in if same j.key key then rest else j ∷ rest

-- UPDATE … WHERE key = ?
unfoldable pub update_job : String → (Job → Job) → List Job → List Job
update_job key change [] = []
update_job key change (j ∷ js) =
    let rest = update_job key change js in if same j.key key then change j ∷ rest else j ∷ rest

-- INSERT … ON CONFLICT(key) DO UPDATE
unfoldable pub upsert_job : Job → (Job → Job) → List Job → List Job
upsert_job new change jobs =
    if is_some (row_of new.key jobs) then update_job new.key change jobs else jobs ++ (new ∷ [])

abbrev pub new_job : String → ℕ → ℕ → Job
new_job key due_at now = record {
  key = key;
  due_at = due_at;
  retry_count = 0;
  last_error = none;
  last_error_at = none;
  updated_at = now;
}

abbrev pub sooner : ℕ → ℕ → Job → Job
sooner due_at now j = record j { due_at = min j.due_at due_at; updated_at = now }

abbrev pub restarted : ℕ → ℕ → Job → Job
restarted due_at now j = record j {
  due_at = due_at;
  retry_count = 0;
  last_error = none;
  last_error_at = none;
  updated_at = now;
}

abbrev pub set_back : ℕ → ℕ → String → ℕ → Job → Job
set_back due_at retry_count error now j = record j {
  due_at = due_at;
  retry_count = retry_count;
  last_error = some error;
  last_error_at = some now;
  updated_at = now;
}

unfoldable pub reschedule_job : String → ℕ → ℕ → List Job → List Job
reschedule_job key due_at now jobs =
    let scheduled = maintenance_job_due_at key due_at in
    upsert_job (new_job key scheduled now) (restarted scheduled now) jobs

-- `error` is the text that `formatCompactError` makes of what was thrown.
unfoldable pub reschedule_failed_job : Job → String → ℕ → List Job → List Job
reschedule_failed_job job error now jobs =
    let retry_count = job.retry_count + 1 in
    update_job job.key
      (set_back (now + maintenance_retry_delay_ms retry_count) retry_count error now) jobs

-- `existing !== next` on times that may be absent.
abbrev same_time : Option ℕ → ℕ → Bool
same_time none t = false
same_time (some s) t = s == t

abbrev pub rearm_at : Option ℕ → Option ℕ → Option ℕ
rearm_at none existing = none
rearm_at (some next) existing = if not (same_time existing next) then some next else existing

unfoldable pub rearm : Scheduler → Scheduler
rearm s = record s { alarm = rearm_at (read_next_due_at s.jobs) s.alarm }

abbrev pub arm_at : Option ℕ → Option ℕ → Option ℕ
arm_at none existing = existing
arm_at (some next) none = some next
arm_at (some next) (some at) = if ltb next at then some next else some at

unfoldable pub ensure_armed : Scheduler → Scheduler
ensure_armed s = record s { alarm = arm_at (read_next_due_at s.jobs) s.alarm }

-- `existing && existing.dueAt <= scheduledDueAt`
abbrev pub is_early_enough : Option Job → ℕ → Bool
is_early_enough none scheduled = false
is_early_enough (some j) scheduled = leb j.due_at scheduled

unfoldable pub defer : String → ℕ → ℕ → Scheduler → Scheduler
defer key due_at now s =
    let scheduled = maintenance_job_due_at key due_at in
    if is_early_enough (read_job key s.jobs) scheduled
    then s
    else rearm
        (record s { jobs = upsert_job (new_job key scheduled now) (sooner scheduled now) s.jobs })
