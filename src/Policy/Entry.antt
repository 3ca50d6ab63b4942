-- ===== src/Policy/Entry.antt =====
-- src/sync-coordinator/domain/entry-policy.ts: what a mutation of an entry, a restore and a purge
-- may do. The capture reasons and the operations are the string unions of the source.
use synch_api.Prelude.{
  ℕ, ◌+◌, ◌*◌, ◌/◌, String, ◌≡◌, ◌≢◌, Bool, true, false, not, ◌&&◌, Option, none, some, arith, ltb,
  ◌==◌, if◌then◌else◌, is_some, same, same?,
}

pub data Op : Type 0 where
  upsert delete : Op

pub data CaptureReason : Type 0 where
  auto before_delete before_restore manual : CaptureReason

abbrev pub is_delete : Op → Bool
is_delete upsert = false
is_delete delete = true

abbrev pub same_op : Op → Op → Bool
same_op upsert upsert = true
same_op delete delete = true
same_op _ _ = false

-- AUTO_ENTRY_VERSION_BUCKET_MS
abbrev pub auto_entry_version_bucket_ms : ℕ
auto_entry_version_bucket_ms = 5 * 60 * 1000

-- The part of the current row that the decision reads.
pub record CurrentEntry : Type 0 where
  pub revision : ℕ
  pub last_mutation_id : Option String

pub record MutationInput : Type 0 where
  pub current : Option CurrentEntry
  pub mutation_id : String
  pub base_revision : ℕ
  pub op : Op
  pub blob_id : Option String
  pub forced_history_before : Option CaptureReason
  pub now : ℕ

-- The fields of the decision of kind "apply".
pub record EntryChange : Type 0 where
  pub previous_revision : ℕ
  pub revision : ℕ
  pub next_blob_id : Option String
  pub next_deleted : Bool
  pub forced_history_before : Option CaptureReason
  pub capture_auto_version : Bool
  pub auto_version_bucket_start : Option ℕ

pub data MutationDecision : Type 0 where
  idempotent : MutationDecision
  stale_revision : (expected_base_revision received_base_revision : ℕ) → MutationDecision
  apply : EntryChange → MutationDecision

-- `input.current?.lastMutationId`
abbrev pub last_mutation : Option CurrentEntry → Option String
last_mutation none = none
last_mutation (some c) = c.last_mutation_id

-- `input.current?.revision ?? 0`
abbrev pub revision_of : Option CurrentEntry → ℕ
revision_of none = 0
revision_of (some c) = c.revision

abbrev pub forced_history : Op → Option CaptureReason → Option CaptureReason
forced_history upsert forced = forced
forced_history delete forced = some before_delete

abbrev pub bucket_start : ℕ → ℕ
bucket_start now = now / auto_entry_version_bucket_ms * auto_entry_version_bucket_ms

abbrev pub entry_change : MutationInput → EntryChange
entry_change input =
    let previous = revision_of input.current in
    let forced = forced_history input.op input.forced_history_before in
    let capture = not (is_some forced) && ltb 0 input.base_revision in
    record {
      previous_revision = previous;
      revision = previous + 1;
      next_blob_id = if is_delete input.op then none else input.blob_id;
      next_deleted = is_delete input.op;
      forced_history_before = forced;
      capture_auto_version = capture;
      auto_version_bucket_start = if capture then some (bucket_start input.now) else none;
    }

unfoldable pub decide_entry_mutation : MutationInput → MutationDecision
decide_entry_mutation input =
    if same? (last_mutation input.current) input.mutation_id
    then idempotent
    else if revision_of input.current == input.base_revision
    then apply (entry_change input)
    else stale_revision (revision_of input.current) input.base_revision

abbrev pub is_current_revision : ℕ → ℕ → Bool
is_current_revision current_revision received_base_revision =
    current_revision == received_base_revision

-- `===` on nullable strings.
abbrev pub same_nullable : Option String → Option String → Bool
same_nullable none none = true
same_nullable none (some b) = false
same_nullable (some a) none = false
same_nullable (some a) (some b) = same a b

unfoldable pub is_restore_payload_compatible : Op → Option String → Op → Option String → Bool
is_restore_payload_compatible target_op target_blob_id restore_op restore_blob_id =
    same_op target_op restore_op && same_nullable target_blob_id restore_blob_id

pub record DeletedFacts : Type 0 where
  pub revision : ℕ
  pub deleted : Bool

pub data PurgeDecision : Type 0 where
  not_found not_deleted no_history accepted : PurgeDecision
  stale_purge : (expected_revision : ℕ) → PurgeDecision

unfoldable pub decide_deleted_entry_purge : Option DeletedFacts → ℕ → Bool → PurgeDecision
decide_deleted_entry_purge none received_revision has_restorable_history = not_found
decide_deleted_entry_purge (some current) received_revision has_restorable_history =
    if not current.deleted
    then not_deleted
    else if not (current.revision == received_revision)
    then stale_purge current.revision
    else if not has_restorable_history
    then no_history
    else accepted

-- What a decision means, stated without the order of the source's tests: a mutation is applied
-- exactly when it is new and its base is the current revision.
abbrev pub Describes : MutationInput → MutationDecision → Type 0
Describes input idempotent = last_mutation input.current ≡ some input.mutation_id
Describes input (stale_revision expected received) =
    (last_mutation input.current ≢ some input.mutation_id)
    × (expected ≡ revision_of input.current)
    × (received ≡ input.base_revision)
    × (expected ≢ received)
Describes input (apply change) =
    (last_mutation input.current ≢ some input.mutation_id)
    × (revision_of input.current ≡ input.base_revision)
    × (change.revision ≡ input.base_revision + 1)

pub same?→some : (o : Option String) (s : String) → same? o s ≡ true → o ≡ some s
same?→some none s h = cc
same?→some (some t) s h = ground arith

pub same?-ne : (o : Option String) (s : String) → same? o s ≡ false → o ≢ some s
same?-ne none s h e = cc
same?-ne (some t) s h e = ground arith

pub decide_entry_mutation-Describes :
    (input : MutationInput) → Describes input (decide_entry_mutation input)
unfolding decide_entry_mutation
decide_entry_mutation-Describes input = ground (
  arith,
  same?→some (last_mutation input.current) input.mutation_id,
  same?-ne (last_mutation input.current) input.mutation_id,
)
