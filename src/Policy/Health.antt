-- ===== src/Policy/Health.antt =====
-- src/sync-coordinator/domain/health-policy.ts: the health summary of a vault and the next time
-- that it can change. `Math.floor(limit * 0.8)` is written over the integers, with which it agrees
-- while the limit is below 2 ^ 50, and `now - t >= d` as the sum that it compares.
use synch_api.Prelude.{
  ℕ, ◌+◌, ◌-◌, ◌*◌, ◌/◌, String, Bool, true, false, ◌&&◌, Option, none, some, List, [], ◌∷◌, ltb,
  leb, min, if◌then◌else◌,
}

abbrev pub staged_blob_stale_ms : ℕ
staged_blob_stale_ms = 60 * 60 * 1000

abbrev pub pending_delete_stale_ms : ℕ
pending_delete_stale_ms = 24 * 60 * 60 * 1000

abbrev pub active_without_recent_commit_ms : ℕ
active_without_recent_commit_ms = 24 * 60 * 60 * 1000

abbrev pub pending_delete_backlog_warning_count : ℕ
pending_delete_backlog_warning_count = 100

pub data HealthStatus : Type 0 where
  all_ok warning critical unknown : HealthStatus

pub record HealthFacts : Type 0 where
  pub storage_used_bytes : ℕ
  pub storage_limit_bytes : ℕ
  pub oldest_staged_blob_age_ms : Option ℕ
  pub oldest_pending_delete_age_ms : Option ℕ
  pub collectible_pending_delete_blob_count : ℕ
  pub active_local_vault_count : ℕ
  pub last_commit_at : Option ℕ

-- The two variables of `evaluateHealth`.
pub record Health : Type 0 where
  pub status : HealthStatus
  pub reasons : List String

abbrev pub warned : HealthStatus → HealthStatus
warned all_ok = warning
warned warning = warning
warned critical = critical
warned unknown = unknown

abbrev pub push_reason : String → List String → List String
push_reason reason [] = reason ∷ []
push_reason reason (r ∷ rs) = r ∷ push_reason reason rs

-- `if (test) warning(reason)`
abbrev pub warn_if : Bool → String → Health → Health
warn_if test reason h =
    if test then record { status = warned h.status; reasons = push_reason reason h.reasons } else h

abbrev pub storage_health : HealthFacts → Health
storage_health facts =
    if ltb 0 facts.storage_limit_bytes && leb facts.storage_limit_bytes facts.storage_used_bytes
    then record { status = critical; reasons = "storage_over_limit" ∷ [] }
    else warn_if
        (ltb 0 facts.storage_limit_bytes
          && leb (facts.storage_limit_bytes * 4 / 5) facts.storage_used_bytes)
        "storage_near_limit" (record { status = all_ok; reasons = [] })

-- `age !== null && age >= threshold`
abbrev pub is_older : Option ℕ → ℕ → Bool
is_older none threshold = false
is_older (some age) threshold = leb threshold age

-- `lastCommitAt === null || now - lastCommitAt >= ACTIVE_WITHOUT_RECENT_COMMIT_MS`
abbrev pub without_commit : Option ℕ → ℕ → Bool
without_commit none now = true
without_commit (some at) now = leb (at + active_without_recent_commit_ms) now

unfoldable pub evaluate_health : HealthFacts → ℕ → Health
evaluate_health facts now =
    warn_if (ltb 0 facts.active_local_vault_count && without_commit facts.last_commit_at now)
      "active_without_recent_commit"
      (warn_if
        (ltb pending_delete_backlog_warning_count facts.collectible_pending_delete_blob_count)
        "pending_delete_backlog"
        (warn_if (is_older facts.oldest_pending_delete_age_ms pending_delete_stale_ms)
          "pending_delete_stale"
          (warn_if (is_older facts.oldest_staged_blob_age_ms staged_blob_stale_ms)
            "staged_blob_stale" (storage_health facts))))

unfoldable pub future_due_from_age : ℕ → Option ℕ → ℕ → Option ℕ
future_due_from_age now none threshold = none
future_due_from_age now (some age) threshold =
    if leb threshold age then none else some (now + (threshold - age))

unfoldable pub commit_warning_due : ℕ → Option ℕ → ℕ → Option ℕ
commit_warning_due active none now = none
commit_warning_due active (some at) now =
    if ltb 0 active && ltb now (at + active_without_recent_commit_ms)
    then some (at + active_without_recent_commit_ms)
    else none

-- The smaller of two candidates that are there: `Math.min` over those that were pushed.
unfoldable pub earlier : Option ℕ → Option ℕ → Option ℕ
earlier none b = b
earlier (some a) none = some a
earlier (some a) (some b) = some (min a b)

unfoldable pub next_health_summary_flush_at : HealthFacts → ℕ → Option ℕ
next_health_summary_flush_at facts now =
    earlier (commit_warning_due facts.active_local_vault_count facts.last_commit_at now) (
      earlier (future_due_from_age now facts.oldest_staged_blob_age_ms staged_blob_stale_ms)
        (future_due_from_age now facts.oldest_pending_delete_age_ms pending_delete_stale_ms))
