-- ===== src/Vault/Log.antt =====
-- The entries as a log that only grows: what a device that has pulled up to a cursor may rely on.
use mathlib.Core.Option
use synch_api.Prelude.{
  ℕ, ◌≡◌, sym, subst, refl, String, Bool, true, false, Option, none, some, List, [], arith, inl,
  inr, ltb, if◌then◌else◌, Bool-cases, Option-cases, not, ◌||◌,
}
use synch_api.Policy.Blob.{StageDecision, sync_paused, rejected, staged_with}
use synch_api.Policy.BlobGc.{staged, same_state, is_blob_pinned}
use synch_api.Store.Rows.{Entry, Blob, Database, Result, ok, err, ◌>>=◌}
use synch_api.Store.Blobs.{read_blob}
use synch_api.Store.References.{read_blob_reference_facts}
use synch_api.Store.State.{
  State, VaultStateLimits, pause_sync, clear_sync_pause, record_gc_completed, apply_vault_policy,
  add_storage_used_bytes, sub_storage_used_bytes, vault_state_exists_for, with_limits,
}
use synch_api.Commit.Cursor.{IsLog}
use synch_api.Blobs.Records.{
  account_for_deleted_blobs, follow_stage, stage_blob_record, delete_unreferenced_staged_blob,
  mark_unpinned_blob_pending_delete, delete_collectible_blob_records,
}
use synch_api.Blobs.Staging.{stage_blob_record-Decided}
use synch_api.Blobs.Service.{DeleteCheck, keep, delete_then, delete_blob_finish}

abbrev pub cursor_of : State → Option ℕ
cursor_of none = none
cursor_of (some st) = some st.current_cursor

abbrev pub LogAt : Option ℕ → List Entry → Type 0
LogAt none es = es ≡ []
LogAt (some n) es = IsLog n es

-- The entries are a log up to the vault's cursor, and there are none before the vault has a row.
abbrev pub IsLogged : Database → Type 0
IsLogged db = LogAt (cursor_of db.state) db.entries

-- A change that leaves the log.
abbrev pub Keeps : Database → Database → Type 0
Keeps db db' = (db'.entries ≡ db.entries) × (cursor_of db'.state ≡ cursor_of db.state)

pub cursor_of-pause_sync :
    (now : ℕ) (reason : String) (s : State) → cursor_of (pause_sync now reason s) ≡ cursor_of s
unfolding pause_sync
cursor_of-pause_sync now reason none = refl
cursor_of-pause_sync now reason (some st) = refl

pub cursor_of-clear_sync_pause : (s : State) → cursor_of (clear_sync_pause s) ≡ cursor_of s
unfolding clear_sync_pause
cursor_of-clear_sync_pause none = refl
cursor_of-clear_sync_pause (some st) = refl

pub cursor_of-record_gc_completed :
    (now : ℕ) (s : State) → cursor_of (record_gc_completed now s) ≡ cursor_of s
unfolding record_gc_completed
cursor_of-record_gc_completed now none = refl
cursor_of-record_gc_completed now (some st) = refl

cursor_of-reserve :
    (delta : ℕ) (s : State)
    → cursor_of (if ltb 0 delta then add_storage_used_bytes delta s else s) ≡ cursor_of s
unfolding add_storage_used_bytes
cursor_of-reserve delta none = ground arith
cursor_of-reserve delta (some st) = ground arith

cursor_of-give_back :
    (bytes : ℕ) (s : State)
    → cursor_of (if ltb 0 bytes then sub_storage_used_bytes bytes s else s) ≡ cursor_of s
unfolding sub_storage_used_bytes
cursor_of-give_back bytes none = ground arith
cursor_of-give_back bytes (some st) = ground arith

pub account_for_deleted_blobs-Keeps :
    (db : Database) (rows : List Blob × List Blob) → Keeps db (account_for_deleted_blobs db rows)
unfolding account_for_deleted_blobs
account_for_deleted_blobs-Keeps db (kept, deleted) = (refl, cursor_of-give_back _ db.state)

follow_stage-Keeps :
    (db : Database) (id : String) (size now deadline : ℕ) (d : StageDecision)
    → Keeps db (follow_stage db id size now deadline d)
unfolding follow_stage
follow_stage-Keeps db id size now deadline (sync_paused reason) =
    (refl, cursor_of-pause_sync now reason db.state)
follow_stage-Keeps db id size now deadline (rejected why) = (refl, refl)
follow_stage-Keeps db id size now deadline (staged_with delta) =
    (refl, cursor_of-reserve delta db.state)

pub stage_blob_record-Keeps :
    (db db' : Database) (id : String) (size now deadline : ℕ) (d : StageDecision)
    → stage_blob_record db id size now deadline ≡ ok (db', d)
    → Keeps db db'
stage_blob_record-Keeps db db' id size now deadline d e =
    elim (stage_blob_record-Decided db id size now deadline db' d e) [
      | inl (reason, refused, kept) ↦ subst (Keeps db) (sym kept) (refl, refl)
      | inr (st, is, decided, done) ↦
          subst (Keeps db) (sym done) (follow_stage-Keeps db id size now deadline d)
    ]

pub delete_unreferenced_staged_blob-Keeps :
    (db : Database) (id : String) (now : ℕ) → Keeps db (delete_unreferenced_staged_blob db id now).0
unfolding delete_unreferenced_staged_blob
delete_unreferenced_staged_blob-Keeps db id now = elim (Option-cases (read_blob id db.blobs)) [
  | inl gone ↦ rw (gone, delete_unreferenced_staged_blob) (refl, refl)
  | inr (b, found) ↦
      elim (Bool-cases
        (not (same_state b.state staged) || is_blob_pinned (read_blob_reference_facts db id now))) [
          | inl used ↦ rw (found, delete_unreferenced_staged_blob) (rw used (refl, refl))
          | inr free ↦
              rw (found, delete_unreferenced_staged_blob)
                (rw free (account_for_deleted_blobs-Keeps db _))
        ]
]

pub delete_blob_finish-Keeps :
    (check : DeleteCheck) (db : Database) (id : String) → Keeps db (delete_blob_finish check db id)
unfolding delete_blob_finish
delete_blob_finish-Keeps keep db id = (refl, refl)
delete_blob_finish-Keeps (delete_then false) db id = (refl, refl)
delete_blob_finish-Keeps (delete_then true) db id = account_for_deleted_blobs-Keeps db _

pub mark_unpinned_blob_pending_delete-Keeps :
    (db : Database) (id : String) (now : ℕ) → Keeps db (mark_unpinned_blob_pending_delete db id now)
unfolding mark_unpinned_blob_pending_delete
mark_unpinned_blob_pending_delete-Keeps db id now = (refl, refl)

pub delete_collectible_blob_records-Keeps :
    (db : Database) (ids : List String) (now : ℕ)
    → Keeps db (delete_collectible_blob_records db ids now).0
unfolding delete_collectible_blob_records
delete_collectible_blob_records-Keeps db ids now = account_for_deleted_blobs-Keeps db _

-- The rest of `apply_vault_policy`, after it has asked whether the vault has a row.
abbrev pub policy_step : VaultStateLimits → State → Bool → Result (State × Bool)
policy_step limits s exists =
    if exists then ok (Option.map (with_limits limits) s, true) else ok (s, false)

pub cursor_of-apply_vault_policy :
    (vault_id : String) (limits : VaultStateLimits) (before state : State) (applied : Bool)
    → apply_vault_policy vault_id limits before ≡ ok (state, applied)
    → cursor_of state ≡ cursor_of before
unfolding apply_vault_policy
cursor_of-apply_vault_policy vault_id limits before state applied e =
    from before (vault_state_exists_for vault_id before) e
  where
    from :
        (s : State) (r : Result Bool)
        → (r >>= policy_step limits s) ≡ ok (state, applied)
        → cursor_of state ≡ cursor_of s
    from none (ok true) p = cc p
    from (some st) (ok true) p = cc p
    from s (ok false) p = cc p
    from s (err why) p = cc
