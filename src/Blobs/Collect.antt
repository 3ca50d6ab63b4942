-- ===== src/Blobs/Collect.antt =====
-- The SQL condition that garbage collection filters by, and the domain's decision on a row.
use synch_api.Prelude.{
  ℕ, ◌≡◌, ◌↔◌, ap, ◌∙◌, subst, String, true, false, Option, none, some, List, [], ◌∷◌, arith,
  Bool-cases, inl, inr, truthy, ◌⊎◌, Option-cases, same?,
}
use synch_api.Policy.Entry.{same?→some}
use synch_api.Policy.BlobGc.{live, collectible, decide_blob_collection}
use synch_api.Store.Rows.{Blob, Entry, Database, ok, first_step}
use synch_api.Store.References.{current_blob_reference, read_blob_reference_facts}
use synch_api.Store.Blobs.{
  read_blob, collectible_blob, collection_facts, delete_blob_record, delete_where, matches_record,
}
use synch_api.Store.Liveness.{AllLive, state_of, LiveFor}
use synch_api.Blobs.Records.{account_for_deleted_blobs}
use synch_api.Blobs.Live.{IsSound, account_for_deleted_blobs-IsSound}
use synch_api.Blobs.Service.{
  DeleteCheck, keep, delete_then, delete_blob_check, delete_blob_finish, delete_blob,
}

-- The rows that the SQL condition selects are exactly those on which the domain decides that the
-- blob is collectible.
pub collectible_blob-decide :
    (db : Database) (now : ℕ) (b : Blob)
    → (collectible_blob db now b ≡ true)
      ↔ (decide_blob_collection (collection_facts db now b) now ≡ collectible)
unfolding collectible_blob decide_blob_collection
collectible_blob-decide db now b = (λ h. ground arith, λ h. ground arith)

read_blob-delete_blob_record :
    (id : String) (bs : List Blob) → read_blob id (delete_blob_record id none bs).0 ≡ none
unfolding read_blob delete_blob_record delete_where
read_blob-delete_blob_record id [] = ground arith
read_blob-delete_blob_record id (b ∷ bs) = ground (arith, read_blob-delete_blob_record id bs)

-- Deleting the record of a blob that no current entry names, with its bytes given back.
pub delete_blob_finish-IsSound :
    (check : DeleteCheck) (db : Database) (id : String)
    → current_blob_reference id db.entries ≡ false
    → IsSound db
    → IsSound (delete_blob_finish check db id)
unfolding delete_blob_finish delete_blob_record
delete_blob_finish-IsSound keep db id free s = s
delete_blob_finish-IsSound (delete_then false) db id free s = s
delete_blob_finish-IsSound (delete_then true) db id free s =
    account_for_deleted_blobs-IsSound db (matches_record id none) (λ b taken. ground arith) s

delete_blob-free :
    (db : Database) (id : String) (now : ℕ) (check : DeleteCheck)
    → delete_blob_check db id now ≡ ok check
    → (check ≡ keep) ⊎ (check ≡ delete_then false) ⊎ (current_blob_reference id db.entries ≡ false)
unfolding delete_blob_check read_blob_reference_facts
delete_blob-free db id now check e = elim (Option-cases (read_blob id db.blobs)) [
  | inl gone ↦ ground arith
  | inr (b, found) ↦ ground arith
]

-- A request to delete a blob that runs without anything in between keeps the two invariants.
pub delete_blob-IsSound :
    (db db' : Database) (id : String) (now : ℕ)
    → delete_blob db id now ≡ ok db'
    → IsSound db
    → IsSound db'
unfolding delete_blob delete_blob_finish
delete_blob-IsSound db db' id now e s =
    let (check, read, last) =
      first_step (λ c. ok (delete_blob_finish c db id)) (delete_blob_check db id now) e in
    elim (delete_blob-free db id now check read) [
      | inl kept ↦ ground (arith)
      | inr (inl gone) ↦ ground (arith)
      | inr (inr free) ↦
          subst IsSound (ok-injective last) (delete_blob_finish-IsSound check db id free s)
    ]
  where
    ok-injective : {x y : Database} → ok x ≡ ok y → x ≡ y
    ok-injective e = cc

lost_entry :
    (id : String) (es : List Entry) (bs : List Blob)
    → truthy (some id) ≡ some id
    → current_blob_reference id es ≡ true
    → AllLive es bs
    → state_of id bs ≡ some live
unfolding current_blob_reference
lost_entry id [] bs named has h = cc
lost_entry id (e ∷ es) bs named has h = elim (Bool-cases (same? e.blob_id id)) [
  | inl this ↦
      subst (λ (o : Option String). LiveFor o bs) (ap truthy (same?→some e.blob_id id this) ∙ named)
        h.0
  | inr other ↦ lost_entry id es bs named (rw (current_blob_reference, other) at has) h.1
]

-- The half of the request that follows the object store does not look again: if by then an entry
-- has come to name the blob, the entry loses its live record.
pub delete_blob_finish-lost :
    (db : Database) (id : String)
    → truthy (some id) ≡ some id
    → current_blob_reference id db.entries ≡ true
    → ¬ AllLive
        (delete_blob_finish (delete_then true) db id).entries
        (delete_blob_finish (delete_then true) db id).blobs
unfolding delete_blob_finish account_for_deleted_blobs
delete_blob_finish-lost db id named referenced h = ground (
  arith,
  read_blob-delete_blob_record id db.blobs,
  lost_entry id db.entries (delete_blob_record id none db.blobs).0 named referenced h,
)
