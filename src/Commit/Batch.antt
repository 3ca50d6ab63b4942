-- ===== src/Commit/Batch.antt =====
-- The transaction of `commitMutations` in
-- src/sync-coordinator/application/services/mutation-service.ts, one function for each part of the
-- loop's body. The texts of the rejections are left out; `randomUUID` is a supply of ids.
use synch_api.Prelude.{
  ℕ, suc, ◌+◌, String, not, ◌&&◌, Option, none, some, List, [], ◌∷◌, ◌++◌, max, if◌then◌else◌,
  is_some, or_else, same?, truthy, trim,
}
use synch_api.Policy.Entry.{
  Op, upsert, delete, CaptureReason, auto, MutationInput, EntryChange, MutationDecision, idempotent,
  stale_revision, apply, decide_entry_mutation,
}
use synch_api.Policy.BlobGc.{staged, live, pending_delete, same_state}
use synch_api.Store.Rows.{
  Entry, EntryVersion, Blob, Database, Result, ok, err, sync_paused, vault_id_mismatch,
  idempotent_without_entry, ◌>>=◌,
}
use synch_api.Store.Entries.{read_entry, upsert_entry}
use synch_api.Store.Versions.{insert_entry_version, contains}
use synch_api.Store.References.{current_blob_reference}
use synch_api.Store.Blobs.{read_blob, update_state}
use synch_api.Store.State.{State, read_sync_pause, read_vault_id, current_cursor, save_commit}

pub record Session : Type 0 where
  pub user_id : String
  pub local_vault_id : String
  pub vault_id : String

-- CommitMutationPayload
pub record Mutation : Type 0 where
  pub mutation_id : String
  pub entry_id : String
  pub op : Op
  pub base_revision : ℕ
  pub blob_id : Option String
  pub encrypted_metadata : String

pub data RejectionCode : Type 0 where
  blob_not_found blob_not_staged duplicate_mutation_id : RejectionCode
  stale : (expected_base_revision received_base_revision : ℕ) → RejectionCode

pub data BatchResult : Type 0 where
  accepted : (mutation_id : String) (cursor : ℕ) (entry_id : String) (revision : ℕ) → BatchResult
  rejected : (mutation_id entry_id : String) → RejectionCode → BatchResult

abbrev pub answered_id : BatchResult → String
answered_id (accepted mutation_id cursor entry_id revision) = mutation_id
answered_id (rejected mutation_id entry_id code) = mutation_id

abbrev pub answered_entry : BatchResult → String
answered_entry (accepted mutation_id cursor entry_id revision) = entry_id
answered_entry (rejected mutation_id entry_id code) = entry_id

-- What the loop reads and does not change.
pub record Context : Type 0 where
  pub session : Session
  pub unavailable_blob_ids : List String
  pub now : ℕ
  pub version_history_retention_ms : ℕ
  pub blob_grace_period_ms : ℕ
  pub forced_history_before : Option CaptureReason
  pub random_uuid : ℕ → String

-- The variables of the loop, with the database that the transaction writes.
pub record Batch : Type 0 where
  pub db : Database
  pub next_cursor : Option ℕ
  pub results : List BatchResult
  pub highest_response_cursor : Option ℕ
  pub highest_broadcast_cursor : Option ℕ
  pub seen_mutation_ids : List String
  pub uuids : ℕ

abbrev pub push : BatchResult → Batch → Batch
push r s = record s { results = s.results ++ r ∷ [] }

-- `Math.max(highest ?? 0, cursor)`
abbrev raise_to : Option ℕ → ℕ → Option ℕ
raise_to highest cursor = some (max (or_else highest 0) cursor)

abbrev pub read_cursor : Context → State → Result ℕ
read_cursor ctx state =
    if same? (read_vault_id state) ctx.session.vault_id
    then current_cursor state
    else err vault_id_mismatch

-- `nextCursor ?? readCursor()`
abbrev pub last_cursor : Context → Batch → Result ℕ
last_cursor ctx s = elim s.next_cursor [ none ↦ read_cursor ctx s.db.state | some c ↦ ok c ]

pub data BlobCheck : Type 0 where
  refused : RejectionCode → BlobCheck
  usable : List Blob → BlobCheck

abbrev check_record : Context → String → List Blob → Option Blob → BlobCheck
check_record ctx blob_id blobs none = refused blob_not_staged
check_record ctx blob_id blobs (some b) = usable (
    if same_state b.state pending_delete
    then update_state blob_id staged (some (ctx.now + ctx.blob_grace_period_ms)) blobs
    else blobs)

unfoldable pub check_named : Context → Option String → List Blob → BlobCheck
check_named ctx none blobs = usable blobs
check_named ctx (some blob_id) blobs =
    if contains blob_id ctx.unavailable_blob_ids
    then refused blob_not_found
    else check_record ctx blob_id blobs (read_blob blob_id blobs)

-- `if (nextBlobId) { … }`: the rejection, or the blob table that the mutation goes on with.
abbrev pub check_blob : Context → Option String → List Blob → BlobCheck
check_blob ctx next_blob_id blobs = check_named ctx (truthy next_blob_id) blobs

abbrev save_version : EntryVersion → Batch → Batch
save_version v s = record s {
  db = record s.db { versions = (insert_entry_version v s.db.versions).0 };
  uuids = suc s.uuids;
}

abbrev pub forced_version : Context → Mutation → String → CaptureReason → Entry → EntryVersion
forced_version ctx m version_id reason current = record {
  version_id = version_id;
  entry_id = m.entry_id;
  source_revision = current.revision;
  op_type = if current.deleted then delete else upsert;
  blob_id = current.blob_id;
  encrypted_metadata = current.encrypted_metadata;
  reason = reason;
  bucket_start_ms = none;
  captured_at = ctx.now;
  expires_at = ctx.now + ctx.version_history_retention_ms;
  created_by_user_id = ctx.session.user_id;
  created_by_local_vault_id = ctx.session.local_vault_id;
}

-- `if (mutationDecision.forcedHistoryBefore && current)`
unfoldable pub save_forced :
    Context → Mutation → Option CaptureReason → Option Entry → Batch → Batch
save_forced ctx m (some reason) (some current) s =
    save_version (forced_version ctx m (ctx.random_uuid s.uuids) reason current) s
save_forced ctx m _ _ s = s

abbrev pub auto_version : Context → Mutation → String → EntryChange → EntryVersion
auto_version ctx m version_id change = record {
  version_id = version_id;
  entry_id = m.entry_id;
  source_revision = change.revision;
  op_type = m.op;
  blob_id = change.next_blob_id;
  encrypted_metadata = m.encrypted_metadata;
  reason = auto;
  bucket_start_ms = change.auto_version_bucket_start;
  captured_at = ctx.now;
  expires_at = ctx.now + ctx.version_history_retention_ms;
  created_by_user_id = ctx.session.user_id;
  created_by_local_vault_id = ctx.session.local_vault_id;
}

unfoldable pub save_auto : Context → Mutation → EntryChange → Batch → Batch
save_auto ctx m change s =
    if change.capture_auto_version
    then save_version (auto_version ctx m (ctx.random_uuid s.uuids) change) s
    else s

abbrev pub next_entry : Context → String → Mutation → EntryChange → ℕ → Entry
next_entry ctx mutation_id m change cursor = record {
  entry_id = m.entry_id;
  revision = change.revision;
  blob_id = change.next_blob_id;
  encrypted_metadata = m.encrypted_metadata;
  deleted = change.next_deleted;
  updated_seq = cursor;
  updated_at = ctx.now;
  updated_by_user_id = ctx.session.user_id;
  updated_by_local_vault_id = ctx.session.local_vault_id;
  last_mutation_id = some mutation_id;
}

unfoldable pub mark_named : Option String → List Blob → List Blob
mark_named none blobs = blobs
mark_named (some blob_id) blobs = update_state blob_id live none blobs

abbrev pub mark_live : Option String → List Blob → List Blob
mark_live next_blob_id blobs = mark_named (truthy next_blob_id) blobs

unfoldable pub retire_named : ℕ → Option String → Option String → List Entry → List Blob → List Blob
retire_named now none next_blob_id entries blobs = blobs
retire_named now (some blob_id) next_blob_id entries blobs =
    if not (same? next_blob_id blob_id) && not (current_blob_reference blob_id entries)
    then update_state blob_id pending_delete (some now) blobs
    else blobs

-- The replaced blob is retired unless an entry still names it.
abbrev pub retire : ℕ → Option String → Option String → List Entry → List Blob → List Blob
retire now current_blob_id = retire_named now (truthy current_blob_id)

-- `current?.blobId ?? null`
abbrev pub blob_of : Option Entry → Option String
blob_of none = none
blob_of (some e) = e.blob_id

-- The writes to the two tables that entries and blobs live in.
unfoldable pub write_entry : Context → Option String → Option String → Entry → Database → Database
write_entry ctx current_blob_id next_blob_id row db =
    let entries = upsert_entry row db.entries in
    record db {
      entries = entries;
      blobs = retire ctx.now current_blob_id next_blob_id entries (mark_live next_blob_id db.blobs);
    }

abbrev pub accept : String → Mutation → EntryChange → ℕ → Batch → Batch
accept mutation_id m change cursor s = record s {
  next_cursor = some cursor;
  highest_response_cursor = raise_to s.highest_response_cursor cursor;
  highest_broadcast_cursor = raise_to s.highest_broadcast_cursor cursor;
  results = s.results ++ accepted mutation_id cursor m.entry_id change.revision ∷ [];
}

-- The source writes the auto version between the entry and the blobs; the tables are disjoint.
unfoldable pub apply_at :
    Context → String → Mutation → Option Entry → EntryChange → ℕ → Batch → Batch
apply_at ctx mutation_id m current change cursor s =
    let row = next_entry ctx mutation_id m change cursor in
    let db = write_entry ctx (blob_of current) change.next_blob_id row s.db in
    accept mutation_id m change cursor (save_auto ctx m change (record s { db = db }))

unfoldable pub apply_change :
    Context → String → Mutation → Option Entry → EntryChange → Batch → Result Batch
apply_change ctx mutation_id m current change s =
    elim (check_blob ctx change.next_blob_id s.db.blobs) [
      | refused code ↦ ok (push (rejected mutation_id m.entry_id code) s)
      | usable blobs ↦
          let saved =
            save_forced ctx m change.forced_history_before current
              (record s { db = record s.db { blobs = blobs } }) in
          last_cursor ctx saved >>= λ cursor.
          ok (apply_at ctx mutation_id m current change (cursor + 1) saved)
    ]

abbrev pub repeat : String → Entry → Batch → Batch
repeat mutation_id e s = record s {
  highest_response_cursor = raise_to s.highest_response_cursor e.updated_seq;
  results = s.results ++ accepted mutation_id e.updated_seq e.entry_id e.revision ∷ [];
}

-- The answer to a mutation that is the entry's last one already.
abbrev answer_again : String → Option Entry → Batch → Result Batch
answer_again mutation_id none s = err idempotent_without_entry
answer_again mutation_id (some e) s = ok (repeat mutation_id e s)

unfoldable pub follow_decision :
    Context → String → Mutation → Option Entry → MutationDecision → Batch → Result Batch
follow_decision ctx mutation_id m current idempotent s = answer_again mutation_id current s
follow_decision ctx mutation_id m current (stale_revision expected received) s =
    ok (push (rejected mutation_id m.entry_id (stale expected received)) s)
follow_decision ctx mutation_id m current (apply change) s =
    apply_change ctx mutation_id m current change s

abbrev pub mutation_input : Context → String → Mutation → Option Entry → MutationInput
mutation_input ctx mutation_id m current = record {
  current = elim current [
    | none ↦ none
    | some e ↦ some (record { revision = e.revision; last_mutation_id = e.last_mutation_id })
  ];
  mutation_id = mutation_id;
  base_revision = m.base_revision;
  op = m.op;
  blob_id = m.blob_id;
  forced_history_before = ctx.forced_history_before;
  now = ctx.now;
}

-- One round of the loop, for a mutation whose trimmed id is new in the batch.
unfoldable pub commit_new : Context → String → Mutation → Batch → Result Batch
commit_new ctx mutation_id m s =
    let current = read_entry m.entry_id s.db.entries in
    follow_decision ctx mutation_id m current
      (decide_entry_mutation (mutation_input ctx mutation_id m current)) s

unfoldable pub commit_one : Context → Mutation → Batch → Result Batch
commit_one ctx m s =
    let mutation_id = trim m.mutation_id in
    if contains mutation_id s.seen_mutation_ids
    then ok (push (rejected mutation_id m.entry_id duplicate_mutation_id) s)
    else commit_new ctx mutation_id m
        (record s { seen_mutation_ids = s.seen_mutation_ids ++ mutation_id ∷ [] })

unfoldable pub commit_all : Context → List Mutation → Batch → Result Batch
commit_all ctx [] s = ok s
commit_all ctx (m ∷ ms) s = commit_one ctx m s >>= λ next. commit_all ctx ms next

abbrev pub start : Database → Batch
start db = record {
  db = db;
  next_cursor = none;
  results = [];
  highest_response_cursor = none;
  highest_broadcast_cursor = none;
  seen_mutation_ids = [];
  uuids = 0;
}

pub record Committed : Type 0 where
  pub cursor : ℕ
  pub results : List BatchResult
  pub broadcast_cursor : Option ℕ

-- `if (nextCursor !== null) stores.state.saveCommit(nextCursor, now)`
abbrev pub saved_state : Context → Batch → State
saved_state ctx s = elim s.next_cursor [
  | none ↦ s.db.state
  | some cursor ↦ save_commit cursor ctx.now s.db.state
]

abbrev pub saved : Context → Batch → Database
saved ctx s = record s.db { state = saved_state ctx s }

abbrev response_cursor : Context → Batch → Result ℕ
response_cursor ctx s = elim s.highest_response_cursor [
  | none ↦ read_cursor ctx (saved ctx s).state
  | some cursor ↦ ok cursor
]

unfoldable pub finish : Context → Batch → Result (Database × Committed)
finish ctx s = do
  cursor ← response_cursor ctx s
  ok (
    saved ctx s,
    record { cursor = cursor; results = s.results; broadcast_cursor = s.highest_broadcast_cursor },
  )

-- `this.unitOfWork.run(…)`: the database after the transaction with its result, or the error that
-- rolls it back.
unfoldable pub commit_transaction :
    Context → List Mutation → Database → Result (Database × Committed)
commit_transaction ctx mutations db =
    if is_some (read_sync_pause db.state)
    then err sync_paused
    else commit_all ctx mutations (start db) >>= finish ctx
