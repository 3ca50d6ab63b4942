-- ===== src/Repair/Pause.antt =====
-- readSyncPause and setSyncPause of src/sync-coordinator/application/services/vault-service.ts.
use Prim.Native.String.{◌++◌ as append}
use text.Mathlib.Text.{starts_with}
use text.Mathlib.TextPositions.{starts_with-append}
use synch_api.Prelude.{
  ℕ, ◌≡◌, inl, inr, refl, String, Bool, true, false, not, ◌⊎◌, Option, none, some, arith,
  Bool-cases, Option-cases, if◌then◌else◌,
}
use synch_api.Store.Rows.{CoordinatorState, Result, ok, err, CoordinatorError, ◌>>=◌}
use synch_api.Store.State.{
  State, SyncPauseState, read_sync_pause, read_vault_id, pause_sync, clear_sync_pause,
  vault_state_exists_for, pause_of, coalesce,
}

abbrev pub manual_sync_pause_prefix : String
manual_sync_pause_prefix = "manual: "

abbrev pub is_manual : SyncPauseState → Bool
is_manual pause = starts_with pause.reason manual_sync_pause_prefix

-- `readSyncPause` of the service.
unfoldable pub read_pause : String → State → Result (Option SyncPauseState)
read_pause vault_id s =
    vault_state_exists_for vault_id s >>= λ exists. ok (if exists then read_sync_pause s else none)

pub data PauseFailure : Type 0 where
  not_found sync_repair_required : PauseFailure
  failed : CoordinatorError → PauseFailure

-- The state after the call with the pause that it returns, and whether the sockets were closed.
pub data PauseReply : Type 0 where
  done : (state : State) (pause : Option SyncPauseState) (closed : Bool) → PauseReply
  failure : PauseFailure → PauseReply

abbrev apply_pause : ℕ → Option String → State → PauseReply
apply_pause now none s = let s' = clear_sync_pause s in done s' (read_sync_pause s') false
apply_pause now (some reason) s =
    let s' = pause_sync now (append manual_sync_pause_prefix reason) s in
    done s' (read_sync_pause s') true

abbrev unless_repair : ℕ → Option String → State → Option SyncPauseState → PauseReply
unless_repair now reason s none = apply_pause now reason s
unless_repair now reason s (some pause) =
    if not (is_manual pause) then failure sync_repair_required else apply_pause now reason s

unfoldable pub set_sync_pause : String → Option String → ℕ → State → PauseReply
set_sync_pause vault_id reason now s = elim (vault_state_exists_for vault_id s) [
  | err why ↦ failure (failed why)
  | ok exists ↦ if exists then unless_repair now reason s (read_sync_pause s) else failure not_found
]

-- A row names a reason only while it is paused.
abbrev pub IsPlain : State → Type 0
IsPlain none = Unit
IsPlain (some st) = st.sync_paused_at ≡ none → st.sync_pause_reason ≡ none

-- What a call that succeeds leaves: no pause, or a manual one.
abbrev pub Holds : Option String → Option SyncPauseState → Type 0
Holds none pause = pause ≡ none
Holds (some reason) pause = (p : SyncPauseState) × (pause ≡ some p) × (is_manual p ≡ true)

-- A pause that is read back after `pauseSync`, over a row that is not paused or manually so.
pause_of-coalesce :
    (at : Option ℕ) (why : Option String) (now : ℕ) (reason : String)
    → (at ≡ none → why ≡ none)
    → ((p : SyncPauseState) → pause_of at why ≡ some p → is_manual p ≡ true)
    → (p : SyncPauseState) × (pause_of
          (coalesce at now)
          (coalesce why (append manual_sync_pause_prefix reason))
        ≡ some p)
      × (is_manual p ≡ true)
pause_of-coalesce none none now reason plain manual =
    (_, refl, starts_with-append manual_sync_pause_prefix reason)
pause_of-coalesce none (some why) now reason plain manual = absurd (ground (arith, plain refl))
pause_of-coalesce (some at) none now reason plain manual =
    (_, refl, starts_with-append manual_sync_pause_prefix reason)
pause_of-coalesce (some at) (some why) now reason plain manual = (_, refl, manual _ refl)

apply_pause-Holds :
    (now : ℕ) (reason : Option String) (st : CoordinatorState)
    → IsPlain (some st)
    → ((p : SyncPauseState) → read_sync_pause (some st) ≡ some p → is_manual p ≡ true)
    → (s' : State) (pause : Option SyncPauseState) (closed : Bool)
    → apply_pause now reason (some st) ≡ done s' pause closed
    → Holds reason pause × (pause ≡ read_sync_pause s')
unfolding clear_sync_pause pause_sync read_sync_pause
apply_pause-Holds now none st plain manual s' pause closed e = ground arith
apply_pause-Holds now (some reason) st plain manual s' pause closed e =
    let (p, held, is) =
      pause_of-coalesce st.sync_paused_at st.sync_pause_reason now reason plain manual in
    ((p, ground (arith, held), is), ground arith)

Exists-cases :
    (r : Result Bool) → (r ≡ ok true) ⊎ (r ≡ ok false) ⊎ ((why : CoordinatorError) × (r ≡ err why))
Exists-cases (ok true) = inl refl
Exists-cases (ok false) = inr (inl refl)
Exists-cases (err why) = inr (inr (why, refl))

set_sync_pause-apply_pause :
    (vault_id : String) (reason : Option String) (now : ℕ) (s s' : State)
    (pause : Option SyncPauseState) (closed : Bool)
    → set_sync_pause vault_id reason now s ≡ done s' pause closed
    → (apply_pause now reason s ≡ done s' pause closed)
      × ((p : SyncPauseState) → read_sync_pause s ≡ some p → is_manual p ≡ true)
unfolding set_sync_pause
set_sync_pause-apply_pause vault_id reason now s s' pause closed e =
    elim (Exists-cases (vault_state_exists_for vault_id s)) [
      | inl there ↦ elim (Option-cases (read_sync_pause s)) [
        | inl running ↦ (ground (arith, there, running), λ p h. absurd (ground arith))
        | inr (old, paused) ↦ elim (Bool-cases (is_manual old)) [
          | inl manual ↦ (ground (arith, there, paused, manual), λ p h. ground arith)
          | inr other ↦ absurd (ground (arith, there, paused, other))
        ]
      ]
      | inr (inl gone) ↦ absurd (ground (arith, gone))
      | inr (inr (why, threw)) ↦ absurd (ground (arith, threw))
    ]

-- A call to pause or resume that succeeds leaves what was asked for: a manual pause, or none; and
-- where the vault is paused for another reason than a manual one, the call fails.
pub set_sync_pause-Holds :
    (vault_id : String) (reason : Option String) (now : ℕ) (s s' : State)
    (pause : Option SyncPauseState) (closed : Bool)
    → IsPlain s
    → set_sync_pause vault_id reason now s ≡ done s' pause closed
    → Holds reason pause
      × (pause ≡ read_sync_pause s')
      × ((p : SyncPauseState) → read_sync_pause s ≡ some p → is_manual p ≡ true)
unfolding set_sync_pause vault_state_exists_for read_vault_id
set_sync_pause-Holds vault_id reason now none s' pause closed plain e = absurd (ground arith)
set_sync_pause-Holds vault_id reason now (some st) s' pause closed plain e =
    let (applied, manual) =
      set_sync_pause-apply_pause vault_id reason now (some st) s' pause closed e in
    let (holds, is) = apply_pause-Holds now reason st plain manual s' pause closed applied in
    (holds, is, manual)
