-- ===== src/Policy/BlobGc.antt =====
-- src/sync-coordinator/domain/blob-gc-policy.ts: which blobs garbage collection may take.
use synch_api.Prelude.{
  ℕ, Bool, true, false, ◌||◌, Option, none, some, List, [], ◌∷◌, ltb, leb, if◌then◌else◌, min,
}

pub data BlobState : Type 0 where
  staged live pending_delete : BlobState

abbrev pub same_state : BlobState → BlobState → Bool
same_state staged staged = true
same_state live live = true
same_state pending_delete pending_delete = true
same_state _ _ = false

pub record ReferenceFacts : Type 0 where
  pub has_current_reference : Bool
  pub has_retained_history : Bool

pub record CollectionFacts : Type 0 where
  pub state : BlobState
  pub delete_after : Option ℕ
  pub references : ReferenceFacts

pub data RetainedReason : Type 0 where
  is_live grace_period current_reference retained_history missing_deadline : RetainedReason

pub data CollectionDecision : Type 0 where
  collectible : CollectionDecision
  retained : RetainedReason → CollectionDecision

-- The tests that follow the one on the deadline.
abbrev collection_by_references : ReferenceFacts → CollectionDecision
collection_by_references facts =
    if facts.has_current_reference
    then retained current_reference
    else if facts.has_retained_history
    then retained retained_history
    else collectible

abbrev collection_by_deadline : Option ℕ → ReferenceFacts → ℕ → CollectionDecision
collection_by_deadline none facts now = retained missing_deadline
collection_by_deadline (some deadline) facts now =
    if ltb now deadline then retained grace_period else collection_by_references facts

unfoldable pub decide_blob_collection : CollectionFacts → ℕ → CollectionDecision
decide_blob_collection facts now =
    if same_state facts.state live
    then retained is_live
    else collection_by_deadline facts.delete_after facts.references now

pub data RetainReason : Type 0 where
  still_staged still_referenced still_in_history : RetainReason

pub data PendingDecision : Type 0 where
  mark_pending_delete : (delete_after : ℕ) → PendingDecision
  retain : RetainReason → PendingDecision

abbrev earlier_deadline : Option ℕ → ℕ → ℕ
earlier_deadline none now = now
earlier_deadline (some deadline) now = min deadline now

unfoldable pub decide_pending_delete : CollectionFacts → ℕ → PendingDecision
decide_pending_delete facts now =
    if same_state facts.state staged
    then retain still_staged
    else if facts.references.has_current_reference
    then retain still_referenced
    else if facts.references.has_retained_history
    then retain still_in_history
    else mark_pending_delete (earlier_deadline facts.delete_after now)

abbrev pub is_blob_pinned : ReferenceFacts → Bool
is_blob_pinned facts = facts.has_current_reference || facts.has_retained_history

-- `Math.min(...deadlines)` of a list that is not empty, given as its head and its tail.
unfoldable pub minimum : ℕ → List ℕ → ℕ
minimum least [] = least
minimum least (x ∷ xs) = minimum (min least x) xs

unfoldable pub earliest_gc_deadline : List ℕ → ℕ → Option ℕ
unfolding minimum
earliest_gc_deadline [] now = none
earliest_gc_deadline (d ∷ ds) now =
    let earliest = minimum d ds in some (if leb earliest now then now else earliest)
