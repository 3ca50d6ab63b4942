-- ===== src/Store/State.antt =====
-- src/sync-coordinator/adapters/outbound/sqlite/coordinator-state-store.ts: the one row of
-- coordinator_state. An UPDATE … WHERE id = 1 changes nothing while there is no row.
use mathlib.Core.Option
use synch_api.Prelude.{
  ℕ, ◌+◌, ◌-◌, String, Bool, true, false, Option, none, some, if◌then◌else◌, same, or_else, truthy,
}
use synch_api.Store.Rows.{
  CoordinatorState, Result, ok, err, vault_id_mismatch, uninitialized, ◌>>=◌,
}

pub record SyncPauseState : Type 0 where
  pub paused_at : ℕ
  pub reason : String

pub record VaultStateLimits : Type 0 where
  pub storage_limit_bytes : ℕ
  pub max_file_size_bytes : ℕ
  pub version_history_retention_days : ℕ

abbrev pub State : Type 0
State = Option CoordinatorState

abbrev pub pause_of : Option ℕ → Option String → Option SyncPauseState
pause_of none reason = none
pause_of (some at) reason =
    some (record { paused_at = at; reason = or_else reason "vault sync paused" })

unfoldable pub read_sync_pause : State → Option SyncPauseState
read_sync_pause none = none
read_sync_pause (some s) = pause_of s.sync_paused_at s.sync_pause_reason

unfoldable pub read_vault_id : State → Option String
read_vault_id s = Option.map (λ (r : CoordinatorState). r.vault_id) s

unfoldable pub current_cursor : State → Result ℕ
current_cursor none = err uninitialized
current_cursor (some s) = ok s.current_cursor

unfoldable pub read_vault_limits : State → Result VaultStateLimits
read_vault_limits none = err uninitialized
read_vault_limits (some s) = ok (record {
  storage_limit_bytes = s.storage_limit_bytes;
  max_file_size_bytes = s.max_file_size_bytes;
  version_history_retention_days = s.version_history_retention_days;
})

unfoldable pub read_version_history_retention_days : State → Result ℕ
unfolding read_vault_limits
read_version_history_retention_days s = do
  limits ← read_vault_limits s
  ok limits.version_history_retention_days

unfoldable pub read_storage_used_bytes : State → Result ℕ
read_storage_used_bytes none = err uninitialized
read_storage_used_bytes (some s) = ok s.storage_used_bytes

unfoldable pub ensure_vault_state : String → VaultStateLimits → State → Result State
ensure_vault_state vault_id limits none = ok (
    some (record {
      vault_id = vault_id;
      current_cursor = 0;
      storage_used_bytes = 0;
      storage_limit_bytes = limits.storage_limit_bytes;
      max_file_size_bytes = limits.max_file_size_bytes;
      version_history_retention_days = limits.version_history_retention_days;
      last_commit_at = none;
      last_gc_at = none;
      sync_paused_at = none;
      sync_pause_reason = none;
    }))
ensure_vault_state vault_id limits (some s) =
    if same s.vault_id vault_id then ok (some s) else err vault_id_mismatch

-- `max(0, storage_used_bytes + delta)` for a delta that is added, and for one that is taken away.
unfoldable pub add_storage_used_bytes : ℕ → State → State
add_storage_used_bytes delta s =
    Option.map
      (λ (r : CoordinatorState). record r { storage_used_bytes = r.storage_used_bytes + delta }) s

unfoldable pub sub_storage_used_bytes : ℕ → State → State
sub_storage_used_bytes delta s =
    Option.map
      (λ (r : CoordinatorState). record r { storage_used_bytes = r.storage_used_bytes - delta }) s

abbrev pub coalesce {ℓ} : {A : Type ℓ} → Option A → A → Option A
coalesce none a = some a
coalesce (some b) a = some b

unfoldable pub pause_sync : ℕ → String → State → State
pause_sync now reason s =
    Option.map
      (λ (r : CoordinatorState). record r {
        sync_paused_at = coalesce r.sync_paused_at now;
        sync_pause_reason = coalesce r.sync_pause_reason reason;
      })
      s

unfoldable pub clear_sync_pause : State → State
clear_sync_pause s =
    Option.map
      (λ (r : CoordinatorState). record r { sync_paused_at = none; sync_pause_reason = none }) s

unfoldable pub save_commit : ℕ → ℕ → State → State
save_commit cursor now s =
    Option.map
      (λ (r : CoordinatorState). record r { current_cursor = cursor; last_commit_at = some now }) s

unfoldable pub record_gc_completed : ℕ → State → State
record_gc_completed now s =
    Option.map (λ (r : CoordinatorState). record r { last_gc_at = some now }) s

-- Whether the policy was written.
abbrev pub with_limits : VaultStateLimits → CoordinatorState → CoordinatorState
with_limits limits r = record r {
  storage_limit_bytes = limits.storage_limit_bytes;
  max_file_size_bytes = limits.max_file_size_bytes;
  version_history_retention_days = limits.version_history_retention_days;
}

unfoldable pub vault_state_exists_for : String → State → Result Bool
unfolding read_vault_id
vault_state_exists_for vault_id s = elim (truthy (read_vault_id s)) [
  | none ↦ ok false
  | some existing ↦ if same existing vault_id then ok true else err vault_id_mismatch
]

-- The row, and whether the policy was written.
unfoldable pub apply_vault_policy : String → VaultStateLimits → State → Result (State × Bool)
unfolding vault_state_exists_for
apply_vault_policy vault_id limits s = do
  exists ← vault_state_exists_for vault_id s
  if exists then ok (Option.map (with_limits limits) s, true) else ok (s, false)
