-- ===== src/Policy/Tests.antt =====
-- The policies on concrete facts.
use synch_api.Prelude.{◌≡◌, ◌<◌, refl, true, none, some, arith, length, ◌+◌, inr}
use synch_api.Policy.Entry.{
  MutationInput, upsert, Describes, decide_entry_mutation, decide_entry_mutation-Describes,
}
use synch_api.Policy.Blob.{is_stale_staged_blob_pause_reason, stale_reason, stale_reason-recognised}
use synch_api.Policy.Health.{
  HealthFacts, evaluate_health, next_health_summary_flush_at, future_due_from_age,
  commit_warning_due, earlier,
}
use synch_api.Policy.Flush.{Before, aged, evaluate_health-steady, evaluate_health-changes}

abbrev edit : MutationInput
edit = record {
  current = some (record { revision = 3; last_mutation_id = some "first" });
  mutation_id = "second";
  base_revision = 3;
  op = upsert;
  blob_id = some "b1";
  forced_history_before = none;
  now = 1_000_000;
}

decide_entry_mutation-Describes_example : Describes edit (decide_entry_mutation edit)
decide_entry_mutation-Describes_example = decide_entry_mutation-Describes edit

stale_reason-recognised_example : is_stale_staged_blob_pause_reason (stale_reason "b1") ≡ true
stale_reason-recognised_example = stale_reason-recognised "b1"

-- An upload that has waited 59 minutes, in a vault that is 81 % full.
abbrev facts : HealthFacts
facts = record {
  storage_used_bytes = 81;
  storage_limit_bytes = 100;
  oldest_staged_blob_age_ms = some 3_540_000;
  oldest_pending_delete_age_ms = some 1000;
  collectible_pending_delete_blob_count = 3;
  active_local_vault_count = 2;
  last_commit_at = some 90_000_000;
}

flush_due : next_health_summary_flush_at facts 100_000_000 ≡ some 100_060_000
unfolding next_health_summary_flush_at future_due_from_age commit_warning_due earlier
flush_due = refl

flush-Before : Before 100_059_999 (next_health_summary_flush_at facts 100_000_000)
unfolding next_health_summary_flush_at future_due_from_age commit_warning_due earlier
flush-Before = omega arith

-- The same facts a little later, and at the time of the flush, when more blobs have become
-- collectible.
abbrev a_little_later : HealthFacts
a_little_later = record facts {
  oldest_staged_blob_age_ms = aged 59_999 facts.oldest_staged_blob_age_ms;
  oldest_pending_delete_age_ms = aged 59_999 facts.oldest_pending_delete_age_ms;
}

abbrev at_flush : HealthFacts
at_flush = record facts {
  oldest_staged_blob_age_ms = aged 60_000 facts.oldest_staged_blob_age_ms;
  oldest_pending_delete_age_ms = some 99_000_000;
  collectible_pending_delete_blob_count = facts.collectible_pending_delete_blob_count + 1;
}

evaluate_health-steady_example :
    evaluate_health a_little_later 100_059_999 ≡ evaluate_health facts 100_000_000
evaluate_health-steady_example =
    evaluate_health-steady facts a_little_later 100_000_000 59_999
      (record {
        passes = record {
          used = refl;
          limit = refl;
          last_commit = refl;
          staged = refl;
          pending = omega arith;
          backlog = omega arith;
        };
        pending_aged = refl;
        same_backlog = refl;
        same_active = refl;
      })
      flush-Before

evaluate_health-changes_example :
    length (evaluate_health facts 100_000_000).reasons
    < length (evaluate_health at_flush 100_060_000).reasons
evaluate_health-changes_example =
    evaluate_health-changes facts at_flush 100_000_000 60_000
      (record {
        used = refl;
        limit = refl;
        last_commit = refl;
        staged = refl;
        pending = omega arith;
        backlog = omega arith;
      })
      (inr (omega arith)) flush_due
