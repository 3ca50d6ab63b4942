-- ===== src/Store/Blobs.antt =====
-- src/sync-coordinator/adapters/outbound/sqlite/blob-store.ts and blob-collectability.ts: the
-- records of the ciphertext objects.
use Prim.Native.String.{compare}
use Prim.Native.Nat.{Ordering}
use synch_api.Prelude.{
  true, ltb, ◌==◌, ◌+◌, select, take, ℕ, String, Bool, false, not, ◌&&◌, ◌||◌, Option, none, some,
  List, [], ◌∷◌, leb, if◌then◌else◌, same, ◌≡◌, arith, order_by,
}
use synch_api.Policy.BlobGc.{
  BlobState, staged, pending_delete, same_state, ReferenceFacts, CollectionFacts,
}
use synch_api.Store.Rows.{Blob, Database}
use synch_api.Store.References.{read_blob_reference_facts}
use synch_api.Store.Versions.{contains}

unfoldable pub read_blob : String → List Blob → Option Blob
read_blob id [] = none
read_blob id (b ∷ bs) = let rest = read_blob id bs in if same b.blob_id id then some b else rest

-- INSERT … ON CONFLICT (blob_id) DO UPDATE of the state, the upload time and the deadline: the
-- size and the creation time of a row that is there stay.
unfoldable pub persist_stage : String → ℕ → ℕ → ℕ → List Blob → List Blob
persist_stage id size now deadline [] =
    record {
      blob_id = id;
      state = staged;
      size_bytes = size;
      created_at = now;
      last_uploaded_at = now;
      delete_after = some deadline;
    }
    ∷ []
persist_stage id size now deadline (b ∷ bs) =
    let rest = persist_stage id size now deadline bs in
    if same b.blob_id id
    then record b { state = staged; last_uploaded_at = now; delete_after = some deadline } ∷ bs
    else b ∷ rest

abbrev restate : String → BlobState → Option ℕ → Blob → Blob
restate id state deadline b =
    if same b.blob_id id then record b { state = state; delete_after = deadline } else b

-- UPDATE blobs SET state, delete_after WHERE blob_id = ?
unfoldable pub update_state : String → BlobState → Option ℕ → List Blob → List Blob
update_state id state deadline [] = []
update_state id state deadline (b ∷ bs) =
    restate id state deadline b ∷ update_state id state deadline bs

-- The WHERE clause of `deleteBlobRecord`.
abbrev pub matches_record : String → Option BlobState → Blob → Bool
matches_record id none b = same b.blob_id id
matches_record id (some expected) b = same b.blob_id id && same_state b.state expected

-- DELETE … RETURNING: the rows that stay and the rows that went.
unfoldable pub delete_where : (Blob → Bool) → List Blob → List Blob × List Blob
delete_where p [] = ([], [])
delete_where p (b ∷ bs) =
    let (kept, deleted) = delete_where p bs in
    if p b then (kept, b ∷ deleted) else (b ∷ kept, deleted)

unfoldable pub delete_blob_record : String → Option BlobState → List Blob → List Blob × List Blob
unfolding delete_where
delete_blob_record id expected bs = delete_where (matches_record id expected) bs

abbrev pub id_before : Ordering → Bool
id_before Ordering.lt = true
id_before Ordering.eq = true
id_before Ordering.gt = false

-- ORDER BY created_at ASC, blob_id ASC
abbrev pub created_first : Blob → Blob → Bool
created_first a b =
    ltb a.created_at b.created_at
    || ((a.created_at == b.created_at) && id_before (compare a.blob_id b.blob_id))

-- `created_at <= now - age`, written as the sum that it compares.
abbrev pub is_stale_staged : ℕ → ℕ → Blob → Bool
is_stale_staged now age b = same_state b.state staged && leb (b.created_at + age) now

unfoldable pub list_stale_staged_blobs : ℕ → ℕ → ℕ → List Blob → List Blob
unfolding order_by
list_stale_staged_blobs now age limit bs =
    take limit (order_by created_first (select (is_stale_staged now age) bs))

-- `blobs.delete_after <= now`, which is not true of NULL.
abbrev pub is_due : Option ℕ → ℕ → Bool
is_due none now = false
is_due (some deadline) now = leb deadline now

abbrev pub unreferenced : ReferenceFacts → Bool
unreferenced facts = not facts.has_current_reference && not facts.has_retained_history

-- The SQL condition `collectibleBlob(now)` on a row.
unfoldable pub collectible_blob : Database → ℕ → Blob → Bool
collectible_blob db now b =
    (same_state b.state staged || same_state b.state pending_delete)
    && is_due b.delete_after now
    && unreferenced (read_blob_reference_facts db b.blob_id now)

unfoldable pub delete_collectible_blobs : Database → List String → ℕ → List Blob × List Blob
unfolding delete_where
delete_collectible_blobs db ids now =
    delete_where (λ b. contains b.blob_id ids && collectible_blob db now b) db.blobs

abbrev pub collection_facts : Database → ℕ → Blob → CollectionFacts
collection_facts db now b = record {
  state = b.state;
  delete_after = b.delete_after;
  references = read_blob_reference_facts db b.blob_id now;
}

pub read_blob-id :
    (id : String) (bs : List Blob) {b : Blob} → read_blob id bs ≡ some b → b.blob_id ≡ id
unfolding read_blob
read_blob-id id [] h = cc
read_blob-id id (x ∷ bs) {b} h =
    ground (arith, λ (p : read_blob id bs ≡ some b). read_blob-id id bs p)
