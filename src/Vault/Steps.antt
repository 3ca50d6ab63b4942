-- ===== src/Vault/Steps.antt =====
-- The transactions of src/sync-coordinator/application/services as steps of the vault's database, and
-- the turns that requests take: a request gives way to others only between its transactions. A
-- request to delete a blob takes two turns, with the object store's answer between them. A commit
-- comes from a session on the vault itself, which the coordinator checks before it opens a socket.
use synch_api.Prelude.{ℕ, ◌≡◌, String, Bool, none, some, List, [], ◌∷◌, ◌++◌, true, false}
use synch_api.Policy.Blob.{StageDecision}
use synch_api.Store.Rows.{CoordinatorState, Database, ok}
use synch_api.Store.Versions.{delete_entry_versions, expire_entry_versions}
use synch_api.Store.State.{
  State, VaultStateLimits, ensure_vault_state, pause_sync, clear_sync_pause, record_gc_completed,
  apply_vault_policy,
}
use synch_api.Commit.Batch.{Context, Mutation, Committed, commit_transaction}
use synch_api.Blobs.Records.{
  stage_blob_record, delete_unreferenced_staged_blob, mark_unpinned_blob_pending_delete,
  delete_collectible_blob_records,
}
use synch_api.Blobs.Service.{delete_then, delete_blob_check, delete_blob_finish}
use synch_api.Store.References.{current_blob_reference}

abbrev pub fresh : Database
fresh = record { entries = []; versions = []; blobs = []; state = none }

pub data Step (db : Database) : Database → Type 0 where
  commit :
      (ctx : Context) (ms : List Mutation) (db' : Database) (c : Committed) (st : CoordinatorState)
      → db.state ≡ some st
      → st.vault_id ≡ ctx.session.vault_id
      → commit_transaction ctx ms db ≡ ok (db', c)
      → Step db db'
  stage :
      (id : String) (size now deadline : ℕ) (db' : Database) (d : StageDecision)
      → stage_blob_record db id size now deadline ≡ ok (db', d)
      → Step db db'
  drop_staged : (id : String) (now : ℕ) → Step db (delete_unreferenced_staged_blob db id now).0
  retire : (id : String) (now : ℕ) → Step db (mark_unpinned_blob_pending_delete db id now)
  collect : (ids : List String) (now : ℕ) → Step db (delete_collectible_blob_records db ids now).0
  forget_history :
      (entry_id : String)
      → Step db (record db { versions = delete_entry_versions entry_id db.versions })
  expire : (now : ℕ) → Step db (record db { versions = expire_entry_versions now db.versions })
  ensure :
      (vault_id : String) (limits : VaultStateLimits) (state : State)
      → ensure_vault_state vault_id limits db.state ≡ ok state
      → Step db (record db { state = state })
  set_policy :
      (vault_id : String) (limits : VaultStateLimits) (state : State) (applied : Bool)
      → apply_vault_policy vault_id limits db.state ≡ ok (state, applied)
      → Step db (record db { state = state })
  pause :
      (now : ℕ) (reason : String) → Step db (record db { state = pause_sync now reason db.state })
  resume : Step db (record db { state = clear_sync_pause db.state })
  complete_gc : (now : ℕ) → Step db (record db { state = record_gc_completed now db.state })

-- `purgeVaultState`, as far as it is about the tables of the model.
unfoldable pub purge_vault_state : Database → Database
purge_vault_state db = fresh

-- The database, and the blobs with a record whose objects a request to delete has found unpinned
-- and now has deleted: its second transaction is still to come.
pub record System : Type 0 where
  pub db : Database
  pub deletions : List String

abbrev pub idle : System
idle = record { db = fresh; deletions = [] }

-- One turn. The parameters say of which blobs the deletion may end on which database, and whether
-- the vault may be purged.
pub data Turn (may_end : String → Database → Type 0) (may_purge : Type 0) (s : System)
    : System → Type 0 where
  transact : (db' : Database) → Step s.db db' → Turn may_end may_purge s (record s { db = db' })
  ask_delete :
      (id : String) (now : ℕ)
      → delete_blob_check s.db id now ≡ ok (delete_then true)
      → Turn may_end may_purge s (record s { deletions = id ∷ s.deletions })
  end_delete :
      (before : List String) (id : String) (rest : List String)
      → s.deletions ≡ before ++ id ∷ rest
      → may_end id s.db
      → Turn may_end may_purge s (record {
        db = delete_blob_finish (delete_then true) s.db id;
        deletions = before ++ rest;
      })
  lose_delete :
      (before : List String) (id : String) (rest : List String)
      → s.deletions ≡ before ++ id ∷ rest
      → Turn may_end may_purge s (record s { deletions = before ++ rest })
  purge : may_purge → Turn may_end may_purge s (record s { db = purge_vault_state s.db })

-- A sequence of turns, newest last.
pub data Reach (may_end : String → Database → Type 0) (may_purge : Type 0)
    : System → System → Type 0 where
  start : {s : System} → Reach may_end may_purge s s
  after :
      {s s' last : System}
      → Reach may_end may_purge s s'
      → Turn may_end may_purge s' last
      → Reach may_end may_purge s last

-- A deletion may end at any time.
abbrev pub Anytime : String → Database → Type 0
Anytime id db = Unit

-- A deletion ends only while no current entry names the blob.
abbrev pub Unnamed : String → Database → Type 0
Unnamed id db = current_blob_reference id db.entries ≡ false
