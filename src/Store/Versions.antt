-- ===== src/Store/Versions.antt =====
-- src/sync-coordinator/adapters/outbound/sqlite/entry-version-store.ts: the saved versions of the
-- entries. The order in which SELECT DISTINCT returns its rows is that of the table here.
use synch_api.Prelude.{
  ℕ, String, Bool, true, false, not, ◌&&◌, ◌||◌, Option, none, some, List, [], ◌∷◌, ◌++◌, leb, ◌==◌,
  if◌then◌else◌, same, select, any, is_some,
}
use synch_api.Policy.Entry.{
  upsert, CaptureReason, auto, before_delete, before_restore, manual, same_op,
}
use synch_api.Store.Rows.{EntryVersion}

abbrev pub same_reason : CaptureReason → CaptureReason → Bool
same_reason auto auto = true
same_reason before_delete before_delete = true
same_reason before_restore before_restore = true
same_reason manual manual = true
same_reason _ _ = false

-- Two NULLs never collide in a unique index.
abbrev pub same_bucket : Option ℕ → Option ℕ → Bool
same_bucket (some a) (some b) = a == b
same_bucket _ _ = false

-- The primary key and the unique index idx_entry_versions_auto_bucket.
abbrev pub conflicts : EntryVersion → EntryVersion → Bool
conflicts new old =
    same old.version_id new.version_id
    || (same old.entry_id new.entry_id
        && same_reason old.reason new.reason
        && same_bucket old.bucket_start_ms new.bucket_start_ms)

-- INSERT … ON CONFLICT DO NOTHING RETURNING version_id: the table, and whether the row was written.
unfoldable pub insert_entry_version : EntryVersion → List EntryVersion → List EntryVersion × Bool
insert_entry_version row vs = if any (conflicts row) vs then (vs, false) else (vs ++ row ∷ [], true)

abbrev pub is_restorable : String → ℕ → EntryVersion → Bool
is_restorable entry_id retention_start v =
    same v.entry_id entry_id
    && same_op v.op_type upsert
    && is_some v.blob_id
    && leb retention_start v.captured_at

unfoldable pub has_restorable_history : String → ℕ → List EntryVersion → Bool
has_restorable_history entry_id retention_start vs = any (is_restorable entry_id retention_start) vs

unfoldable pub read_entry_version : String → String → ℕ → List EntryVersion → Option EntryVersion
read_entry_version entry_id version_id retention_start [] = none
read_entry_version entry_id version_id retention_start (v ∷ vs) =
    let rest = read_entry_version entry_id version_id retention_start vs in
    if same v.entry_id entry_id && same v.version_id version_id && leb retention_start v.captured_at
    then some v
    else rest

unfoldable pub contains : String → List String → Bool
contains s [] = false
contains s (x ∷ xs) = same x s || contains s xs

abbrev pub add_distinct : String → List String → List String
add_distinct s xs = if contains s xs then xs else xs ++ s ∷ []

abbrev pub add_some : Option String → List String → List String
add_some none xs = xs
add_some (some s) xs = add_distinct s xs

unfoldable pub list_blob_ids_from : String → List String → List EntryVersion → List String
list_blob_ids_from entry_id seen [] = seen
list_blob_ids_from entry_id seen (v ∷ vs) =
    list_blob_ids_from entry_id (if same v.entry_id entry_id then add_some v.blob_id seen else seen)
      vs

unfoldable pub list_blob_ids : String → List EntryVersion → List String
unfolding list_blob_ids_from
list_blob_ids entry_id vs = list_blob_ids_from entry_id [] vs

unfoldable pub delete_entry_versions : String → List EntryVersion → List EntryVersion
delete_entry_versions entry_id vs = select (λ v. not (same v.entry_id entry_id)) vs

unfoldable pub expire_entry_versions : ℕ → List EntryVersion → List EntryVersion
expire_entry_versions now vs = select (λ v. not (leb v.expires_at now)) vs
