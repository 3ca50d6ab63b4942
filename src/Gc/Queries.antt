-- ===== src/Gc/Queries.antt =====
-- src/sync-coordinator/adapters/outbound/sqlite/blob-gc-queries.ts: the records that collection may
-- take, and the times at which there is something to collect.
use Prim.Native.String.{compare}
use synch_api.Prelude.{
  ℕ, String, Bool, true, false, ◌&&◌, ◌||◌, Option, none, some, List, [], ◌∷◌, ◌++◌, ltb, ◌==◌,
  if◌then◌else◌, same, select, take,
}
use synch_api.Policy.BlobGc.{ReferenceFacts, staged, pending_delete, same_state, minimum}
use synch_api.Store.Rows.{Blob, EntryVersion, Database}
use synch_api.Store.References.{read_blob_reference_facts}
use synch_api.Store.Blobs.{id_before, collectible_blob, unreferenced}

-- BlobGcCandidate: a record with what references its blob.
pub record Candidate : Type 0 where
  pub blob : Blob
  pub reference_facts : ReferenceFacts

abbrev pub to_candidate : Database → ℕ → Blob → Candidate
to_candidate db now b = record {
  blob = b;
  reference_facts = read_blob_reference_facts db b.blob_id now;
}

abbrev pub candidates : Database → ℕ → List Blob → List Candidate
candidates db now [] = []
candidates db now (b ∷ bs) = to_candidate db now b ∷ candidates db now bs

-- SQLite sorts NULL before every number.
abbrev deadline_before : Option ℕ → Option ℕ → Bool
deadline_before none none = false
deadline_before none (some b) = true
deadline_before (some a) none = false
deadline_before (some a) (some b) = ltb a b

abbrev same_deadline : Option ℕ → Option ℕ → Bool
same_deadline none none = true
same_deadline none (some b) = false
same_deadline (some a) none = false
same_deadline (some a) (some b) = a == b

-- ORDER BY delete_after ASC, blob_id ASC
abbrev pub collected_first : Blob → Blob → Bool
collected_first a b =
    deadline_before a.delete_after b.delete_after
    || (same_deadline a.delete_after b.delete_after && id_before (compare a.blob_id b.blob_id))

unfoldable pub insert_blob : Blob → List Blob → List Blob
insert_blob b [] = b ∷ []
insert_blob b (x ∷ xs) =
    let rest = insert_blob b xs in if collected_first b x then b ∷ x ∷ xs else x ∷ rest

unfoldable pub order_blobs : List Blob → List Blob
order_blobs [] = []
order_blobs (b ∷ bs) = insert_blob b (order_blobs bs)

unfoldable pub list_collectible_blobs : Database → ℕ → ℕ → List Candidate
list_collectible_blobs db now limit =
    candidates db now (take limit (order_blobs (select (collectible_blob db now) db.blobs)))

unfoldable pub first_collectible : Database → String → ℕ → List Blob → Option Candidate
first_collectible db blob_id now [] = none
first_collectible db blob_id now (b ∷ bs) =
    let rest = first_collectible db blob_id now bs in
    if same b.blob_id blob_id && collectible_blob db now b
    then some (to_candidate db now b)
    else rest

unfoldable pub read_collectible_blob : Database → String → ℕ → Option Candidate
read_collectible_blob db blob_id now = first_collectible db blob_id now db.blobs

abbrev pub has_facts_free : Database → ℕ → Blob → Bool
has_facts_free db now b = unreferenced (read_blob_reference_facts db b.blob_id now)

-- The deadline of a staged record, if it is ahead or if nothing names the blob.
abbrev pub staged_deadline : Database → ℕ → Blob → Option ℕ → List ℕ
staged_deadline db now b none = []
staged_deadline db now b (some deadline) =
    if same_state b.state staged && (ltb now deadline || has_facts_free db now b)
    then deadline ∷ []
    else []

abbrev pub pending_deadline : Database → ℕ → Blob → Option ℕ → List ℕ
pending_deadline db now b none = []
pending_deadline db now b (some deadline) =
    if same_state b.state pending_delete && has_facts_free db now b then deadline ∷ [] else []

unfoldable pub staged_deadlines : Database → ℕ → List Blob → List ℕ
staged_deadlines db now [] = []
staged_deadlines db now (b ∷ bs) =
    staged_deadline db now b b.delete_after ++ staged_deadlines db now bs

unfoldable pub pending_deadlines : Database → ℕ → List Blob → List ℕ
pending_deadlines db now [] = []
pending_deadlines db now (b ∷ bs) =
    pending_deadline db now b b.delete_after ++ pending_deadlines db now bs

abbrev pub expiries : List EntryVersion → List ℕ
expiries [] = []
expiries (v ∷ vs) = v.expires_at ∷ expiries vs

-- ORDER BY … ASC LIMIT 1
abbrev pub least_of : List ℕ → List ℕ
least_of [] = []
least_of (d ∷ ds) = minimum d ds ∷ []

unfoldable pub read_gc_deadlines : Database → ℕ → List ℕ
read_gc_deadlines db now = least_of (
    staged_deadlines db now db.blobs ++ (pending_deadlines db now db.blobs ++ expiries db.versions))
