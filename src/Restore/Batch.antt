-- ===== src/Restore/Batch.antt =====
-- restoreEntryVersions of src/sync-coordinator/application/services/entry-service.ts: the first loop
-- reads the tables and collects the mutations, the commit follows on the database as it is then, and
-- the second loop puts its answers in their places. The texts of the rejections are left out.
use synch_api.Prelude.{
  ℕ, zero, suc, ◌-◌, ◌*◌, String, not, Option, none, some, List, [], ◌∷◌, ◌++◌, length,
  if◌then◌else◌, or_else,
}
use synch_api.Policy.Entry.{Op, before_restore, is_current_revision, is_restore_payload_compatible}
use synch_api.Store.Rows.{Entry, EntryVersion, Database, Result, ok, ◌>>=◌}
use synch_api.Store.Entries.{read_entry}
use synch_api.Store.Versions.{read_entry_version}
use synch_api.Store.State.{current_cursor, read_version_history_retention_days}
use synch_api.Commit.Batch.{
  Context, Mutation, RejectionCode, BatchResult, accepted, rejected, Committed, commit_transaction,
}

abbrev pub day_in_ms : ℕ
day_in_ms = 24 * 60 * 60 * 1000

-- RestoreEntryVersionMessage, less its type and its request.
pub record Restore : Type 0 where
  pub entry_id : String
  pub version_id : String
  pub base_revision : ℕ
  pub op : Op
  pub blob_id : Option String
  pub encrypted_metadata : String

pub data RestoreRefusal : Type 0 where
  entry_not_found version_not_found version_mismatch restore_commit_pending : RestoreRefusal
  stale_revision : (expected_base_revision received_base_revision : ℕ) → RestoreRefusal
  commit_rejected : RejectionCode → RestoreRefusal

pub data RestoreResult : Type 0 where
  restored :
      (entry_id restored_from_version_id : String) (restored_from_revision cursor revision : ℕ)
      → RestoreResult
  refused : (entry_id version_id : String) → RestoreRefusal → RestoreResult

abbrev pub rejected_restore : Restore → RestoreRefusal → RestoreResult
rejected_restore r why = refused r.entry_id r.version_id why

-- The four lists that the first loop builds, with the ids that it has taken.
pub record Staged : Type 0 where
  pub results : List RestoreResult
  pub mutation_indexes : List ℕ
  pub restored_from_revisions : List ℕ
  pub mutations : List Mutation
  pub uuids : ℕ

-- Either the answer at once, or the version to restore.
pub data Check : Type 0 where
  turned_down : RestoreRefusal → Check
  may_restore : EntryVersion → Check

abbrev check_target : Restore → Entry → Option EntryVersion → Check
check_target r current none = turned_down version_not_found
check_target r current (some target) =
    if not (is_current_revision current.revision r.base_revision)
    then turned_down (stale_revision current.revision r.base_revision)
    else if not (is_restore_payload_compatible target.op_type target.blob_id r.op r.blob_id)
    then turned_down version_mismatch
    else may_restore target

abbrev check_current : Database → ℕ → Restore → Option Entry → Check
check_current db retention_start r none = turned_down entry_not_found
check_current db retention_start r (some current) =
    check_target r current (read_entry_version r.entry_id r.version_id retention_start db.versions)

unfoldable pub check_restore : Database → ℕ → Restore → Check
check_restore db retention_start r =
    check_current db retention_start r (read_entry r.entry_id db.entries)

abbrev restore_mutation : String → Restore → Mutation
restore_mutation mutation_id r = record {
  mutation_id = mutation_id;
  entry_id = r.entry_id;
  op = r.op;
  base_revision = r.base_revision;
  blob_id = r.blob_id;
  encrypted_metadata = r.encrypted_metadata;
}

abbrev pub stage_checked : (ℕ → String) → Restore → Staged → Check → Staged
stage_checked random_uuid r s (turned_down why) = record s {
  results = s.results ++ rejected_restore r why ∷ [];
}
stage_checked random_uuid r s (may_restore target) = record {
  results = s.results ++ rejected_restore r restore_commit_pending ∷ [];
  mutation_indexes = s.mutation_indexes ++ length s.results ∷ [];
  restored_from_revisions = s.restored_from_revisions ++ target.source_revision ∷ [];
  mutations = s.mutations ++ restore_mutation (random_uuid s.uuids) r ∷ [];
  uuids = suc s.uuids;
}

unfoldable pub stage_restores :
    (ℕ → String) → Database → (retention_start : ℕ) → List Restore → Staged → Staged
stage_restores random_uuid db retention_start [] s = s
stage_restores random_uuid db retention_start (r ∷ rs) s =
    stage_restores random_uuid db retention_start rs
      (stage_checked random_uuid r s (check_restore db retention_start r))

abbrev pub nothing_staged : Staged
nothing_staged = record {
  results = [];
  mutation_indexes = [];
  restored_from_revisions = [];
  mutations = [];
  uuids = 0;
}

-- The part before the commit.
unfoldable pub restore_start : (ℕ → String) → ℕ → List Restore → Database → Result Staged
restore_start random_uuid now restores db = read_version_history_retention_days db.state >>= λ days.
    ok (stage_restores random_uuid db (now - days * day_in_ms) restores nothing_staged)

-- `xs[i]`
abbrev pub get_elem? {ℓ} : {A : Type ℓ} → List A → ℕ → Option A
get_elem? [] n = none
get_elem? (x ∷ xs) zero = some x
get_elem? (x ∷ xs) (suc n) = get_elem? xs n

-- `xs[i] = x`, for an index within the list.
abbrev pub set_elem {ℓ} : {A : Type ℓ} → ℕ → A → List A → List A
set_elem n a [] = []
set_elem zero a (x ∷ xs) = a ∷ xs
set_elem (suc n) a (x ∷ xs) = x ∷ set_elem n a xs

abbrev pub settled_result : Restore → Option ℕ → BatchResult → RestoreResult
settled_result r from (accepted mutation_id cursor entry_id revision) =
    restored r.entry_id r.version_id (or_else from r.base_revision) cursor revision
settled_result r from (rejected mutation_id entry_id code) =
    refused r.entry_id r.version_id (commit_rejected code)

abbrev pub settle_at :
    Option Restore → ℕ → Option ℕ → BatchResult → List RestoreResult → List RestoreResult
settle_at none i from answer results = results
settle_at (some r) i from answer results = set_elem i (settled_result r from answer) results

abbrev pub head_of {ℓ} : {A : Type ℓ} → List A → Option A
head_of [] = none
head_of (x ∷ xs) = some x

abbrev pub tail_of {ℓ} : {A : Type ℓ} → List A → List A
tail_of [] = []
tail_of (x ∷ xs) = xs

-- The second loop, over the answers with the indexes and revisions at the same places.
unfoldable pub settle_all :
    List Restore → List BatchResult → List ℕ → List ℕ → List RestoreResult → List RestoreResult
settle_all restores [] indexes revisions results = results
settle_all restores (a ∷ answers) [] revisions results = results
settle_all restores (a ∷ answers) (i ∷ indexes) revisions results =
    settle_all restores answers indexes (tail_of revisions)
      (settle_at (get_elem? restores i) i (head_of revisions) a results)

pub record Restored : Type 0 where
  pub cursor : ℕ
  pub results : List RestoreResult
  pub broadcast_cursor : Option ℕ

-- Without mutations there is no commit.
unfoldable pub restore_nothing : Database → Staged → Result Restored
restore_nothing db s = current_cursor db.state >>= λ cursor.
    ok (record { cursor = cursor; results = s.results; broadcast_cursor = none })

unfoldable pub restore_finish : List Restore → Staged → Committed → Restored
restore_finish restores s c = record {
  cursor = c.cursor;
  results = settle_all restores c.results s.mutation_indexes s.restored_from_revisions s.results;
  broadcast_cursor = c.broadcast_cursor;
}

-- A restore keeps the version that it replaces.
abbrev pub before_restoring : Context → Context
before_restoring ctx = record ctx { forced_history_before = some before_restore }

abbrev pub restore_staged :
    Context
    → List Restore
    → (db found : Database) → Staged
    → List Mutation
    → Result (Database × Restored)
restore_staged ctx restores db found s [] = restore_nothing db s >>= λ r. ok (db, r)
restore_staged ctx restores db found s (m ∷ ms) =
    commit_transaction (before_restoring ctx) (m ∷ ms) found >>= λ done.
    ok (done.0, restore_finish restores s done.1)

-- `found` is the database once the commit has asked the object store for the blobs.
unfoldable pub restore_entry_versions :
    Context → (ℕ → String) → List Restore → (db found : Database) → Result (Database × Restored)
restore_entry_versions ctx random_uuid restores db found =
    restore_start random_uuid ctx.now restores db >>= λ s.
    restore_staged ctx restores db found s s.mutations
