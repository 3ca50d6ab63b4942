-- ===== src/Store/References.antt =====
-- src/sync-coordinator/adapters/outbound/sqlite/blob-reference-facts.ts: whether a current entry or
-- an unexpired version names a blob.
use synch_api.Prelude.{ℕ, String, Bool, false, ◌&&◌, ◌||◌, List, [], ◌∷◌, ltb, same?}
use synch_api.Policy.BlobGc.{ReferenceFacts}
use synch_api.Store.Rows.{Entry, EntryVersion, Database}

unfoldable pub current_blob_reference : String → List Entry → Bool
current_blob_reference blob_id [] = false
current_blob_reference blob_id (e ∷ es) =
    same? e.blob_id blob_id || current_blob_reference blob_id es

unfoldable pub retained_blob_reference : String → ℕ → List EntryVersion → Bool
retained_blob_reference blob_id now [] = false
retained_blob_reference blob_id now (v ∷ vs) =
    (same? v.blob_id blob_id && ltb now v.expires_at) || retained_blob_reference blob_id now vs

unfoldable pub read_blob_reference_facts : Database → String → ℕ → ReferenceFacts
read_blob_reference_facts db blob_id now = record {
  has_current_reference = current_blob_reference blob_id db.entries;
  has_retained_history = retained_blob_reference blob_id now db.versions;
}
