-- ===== src/Policy/Blob.antt =====
-- src/sync-coordinator/domain/blob-policy.ts: whether an upload may be staged. A limit of 0 is no
-- limit. `now - createdAt >= staleAfterMs` is written as the sum that it compares.
use Prim.Native.String.{◌++◌}
use text.Mathlib.Text.{starts_with}
use text.Mathlib.TextPositions.{starts_with-append}
use synch_api.Prelude.{
  ℕ, ◌+◌, ◌≡◌, String, Bool, true, false, ◌&&◌, Option, none, some, ltb, leb, ◌==◌, if◌then◌else◌,
  is_some, arith, ◌⊎◌, ◌≤◌,
}
use synch_api.Policy.BlobGc.{BlobState, staged, same_state}

pub record ExistingBlob : Type 0 where
  pub state : BlobState
  pub size_bytes : ℕ
  pub created_at : ℕ

pub record StageInput : Type 0 where
  pub blob_id : String
  pub size_bytes : ℕ
  pub now : ℕ
  pub stale_after_ms : ℕ
  pub existing : Option ExistingBlob
  pub is_pinned : Bool
  pub storage_used_bytes : ℕ
  pub storage_limit_bytes : ℕ
  pub max_file_size_bytes : ℕ

pub data StageRejection : Type 0 where
  file_too_large : (max_file_size_bytes size_bytes : ℕ) → StageRejection
  blob_already_live : (size_bytes : ℕ) → StageRejection
  blob_size_changed : (previous_size_bytes size_bytes : ℕ) → StageRejection
  quota_exceeded : (storage_limit_bytes size_bytes used_bytes : ℕ) → StageRejection

pub data StageDecision : Type 0 where
  sync_paused : (reason : String) → StageDecision
  rejected : StageRejection → StageDecision
  staged_with : (storage_delta_bytes : ℕ) → StageDecision

abbrev pub stale_staged_blob_pause_reason_prefix : String
stale_staged_blob_pause_reason_prefix = "staged blob "

unfoldable pub is_stale_staged_blob_pause_reason : String → Bool
is_stale_staged_blob_pause_reason reason = starts_with reason stale_staged_blob_pause_reason_prefix

abbrev pub stale_reason : String → String
stale_reason blob_id =
    stale_staged_blob_pause_reason_prefix ++ (blob_id ++ " remained staged for at least one hour")

-- `input.isPinned && existing?.state === "staged" && now - createdAt >= staleAfterMs`
abbrev is_stale : StageInput → Option ExistingBlob → Bool
is_stale input none = false
is_stale input (some b) =
    input.is_pinned
    && same_state b.state staged
    && leb (b.created_at + input.stale_after_ms) input.now

abbrev over_quota : StageInput → Bool
over_quota input =
    ltb 0 input.storage_limit_bytes
    && ltb input.storage_limit_bytes (input.storage_used_bytes + input.size_bytes)

-- The tests that follow the one on the file's size.
abbrev stage_by_record : StageInput → Option ExistingBlob → StageDecision
stage_by_record input none =
    if over_quota input
    then rejected
        (quota_exceeded input.storage_limit_bytes input.size_bytes input.storage_used_bytes)
    else staged_with input.size_bytes
stage_by_record input (some b) =
    if input.is_pinned
    then rejected (blob_already_live input.size_bytes)
    else if b.size_bytes == input.size_bytes
    then staged_with 0
    else rejected (blob_size_changed b.size_bytes input.size_bytes)

unfoldable pub decide_blob_stage : StageInput → StageDecision
decide_blob_stage input =
    if is_stale input input.existing
    then sync_paused (stale_reason input.blob_id)
    else if ltb 0 input.max_file_size_bytes && ltb input.max_file_size_bytes input.size_bytes
    then rejected (file_too_large input.max_file_size_bytes input.size_bytes)
    else stage_by_record input input.existing

-- The text of a pause that staging makes is one that the repair recognises.
pub stale_reason-recognised :
    (blob_id : String) → is_stale_staged_blob_pause_reason (stale_reason blob_id) ≡ true
unfolding is_stale_staged_blob_pause_reason
stale_reason-recognised blob_id = starts_with-append stale_staged_blob_pause_reason_prefix _

-- What an upload that is staged satisfies: it reserves its size just if it is new, an older record
-- of it is not pinned and has the same size, and the limits that are set are kept.
pub record IsStageable (input : StageInput) (delta : ℕ) : Type 0 where
  pub reserves : delta ≡ (if is_some input.existing then 0 else input.size_bytes)
  pub unpinned : (is_some input.existing && input.is_pinned) ≡ false
  pub same_size : (b : ExistingBlob) → input.existing ≡ some b → b.size_bytes ≡ input.size_bytes
  pub file_fits : (input.max_file_size_bytes ≡ 0) ⊎ (input.size_bytes ≤ input.max_file_size_bytes)
  pub quota_kept :
      (input.storage_limit_bytes ≡ 0)
      ⊎ (input.storage_used_bytes + delta ≤ input.storage_limit_bytes)
      ⊎ (is_some input.existing ≡ true)

staged-same_size :
    (input : StageInput) (delta : ℕ) (b : ExistingBlob)
    → decide_blob_stage input ≡ staged_with delta
    → input.existing ≡ some b
    → b.size_bytes ≡ input.size_bytes
unfolding decide_blob_stage
staged-same_size input delta b e is = ground arith

pub decide_blob_stage-IsStageable :
    (input : StageInput) (delta : ℕ)
    → decide_blob_stage input ≡ staged_with delta
    → IsStageable input delta
unfolding decide_blob_stage
decide_blob_stage-IsStageable input delta e = record {
  reserves = ground arith;
  unpinned = ground arith;
  same_size = λ b. staged-same_size input delta b e;
  file_fits = ground arith;
  quota_kept = ground arith;
}
