-- ===== src/Gc/Takes.antt =====
-- Which records a collection takes.
use synch_api.Prelude.{
  ℕ, ◌≡◌, ◌⊎◌, inl, inr, refl, subst, String, Bool, true, false, ◌&&◌, some, List, [], ◌∷◌, arith,
  Bool-cases, same,
}
use synch_api.Store.Rows.{Blob, Database}
use synch_api.Store.Versions.{contains}
use synch_api.Store.Blobs.{
  read_blob, read_blob-id, delete_where, delete_collectible_blobs, collectible_blob,
}
use synch_api.Blobs.Records.{delete_collectible_blob_records, account_for_deleted_blobs}
use synch_api.Gc.Queries.{Candidate}
use synch_api.Gc.Runs.{
  Answer, thrown, answered, delete_collectible_batch, delete_records, succeeded_blob_ids, blob_ids,
}

read_blob-delete_where :
    (p : Blob → Bool) (id : String) (bs : List Blob) {b : Blob}
    → read_blob id bs ≡ some b
    → (read_blob id (delete_where p bs).0 ≡ some b) ⊎ (p b ≡ true)
unfolding read_blob delete_where
read_blob-delete_where p id [] found = cc
read_blob-delete_where p id (x ∷ xs) {b} found = elim (Bool-cases (same x.blob_id id)) [
  | inl this ↦ elim (Bool-cases (p x)) [
    | inl gone ↦ inr (ground arith)
    | inr kept ↦ inl (ground arith)
  ]
  | inr other ↦ elim (read_blob-delete_where p id xs (rw (read_blob, other) at found)) [
    | inl stays ↦ inl (ground arith)
    | inr taken ↦ inr taken
  ]
]

abbrev pub Gone : (String → String) → Answer → List Candidate → String → Type 0
Gone object_key answer cs id =
    (keys : List String) × (answer ≡ answered keys)
    × (contains id (blob_ids cs) ≡ true)
    × (contains (object_key id) keys ≡ false)

contains-succeeded_blob_ids :
    (object_key : String → String) (keys : List String) (cs : List Candidate) (id : String)
    → contains id (succeeded_blob_ids object_key keys cs) ≡ true
    → (contains id (blob_ids cs) ≡ true) × (contains (object_key id) keys ≡ false)
unfolding contains
contains-succeeded_blob_ids object_key keys [] id h = cc
contains-succeeded_blob_ids object_key keys (c ∷ cs) id h =
    elim (Bool-cases (contains (object_key c.blob.blob_id) keys)) [
      | inl failed ↦
          let (listed, free) =
            contains-succeeded_blob_ids object_key keys cs id (ground (arith, failed)) in
          (ground arith, free)
      | inr free ↦ elim (Bool-cases (same c.blob.blob_id id)) [
        | inl this ↦ (
          ground arith,
          subst (λ (n : String). contains (object_key n) keys ≡ false) (ground arith) free,
        )
        | inr other ↦
            let (listed, spared) =
              contains-succeeded_blob_ids object_key keys cs id (ground (arith, free, other)) in
            (ground arith, spared)
      ]
    ]

and-both : (a b : Bool) → (a && b) ≡ true → (a ≡ true) × (b ≡ true)
and-both a b h = ground arith

delete_records-Takes :
    (ids : List String) (now : ℕ) (db : Database) (id : String) {b : Blob}
    → read_blob id db.blobs ≡ some b
    → (read_blob id (delete_records ids now db).0.blobs ≡ some b)
      ⊎ ((contains id ids ≡ true) × (collectible_blob db now b ≡ true))
unfolding delete_collectible_blob_records delete_collectible_blobs account_for_deleted_blobs
delete_records-Takes [] now db id found = inl found
delete_records-Takes (i ∷ is) now db id {b} found =
    elim (read_blob-delete_where (λ x. contains x.blob_id (i ∷ is) && collectible_blob db now x) id
      db.blobs found) [
        | inl stays ↦ inl stays
        | inr taken ↦ inr (
            and-both _ _ (
              subst (λ (n : String). (contains n (i ∷ is) && collectible_blob db now b) ≡ true)
                (read_blob-id id db.blobs found) taken))
      ]

-- A collection takes the record of a blob only if the blob was in the batch, the object store has
-- answered and not named its object among those that it could not delete, and the blob is one to
-- collect in the database as it is when the records go; any other record stays as it is.
pub delete_collectible_batch-Gone :
    (object_key : String → String) (answer : Answer) (cs : List Candidate) (now : ℕ) (db : Database)
    (id : String) (b : Blob)
    → read_blob id db.blobs ≡ some b
    → (read_blob id (delete_collectible_batch object_key answer cs now db).0.blobs ≡ some b)
      ⊎ (Gone object_key answer cs id × (collectible_blob db now b ≡ true))
unfolding delete_collectible_batch
delete_collectible_batch-Gone object_key answer [] now db id b found = inl found
delete_collectible_batch-Gone object_key thrown (c ∷ cs) now db id b found = inl found
delete_collectible_batch-Gone object_key (answered keys) (c ∷ cs) now db id b found =
    elim (delete_records-Takes (succeeded_blob_ids object_key keys (c ∷ cs)) now db id found) [
      | inl stays ↦ inl stays
      | inr (named, due) ↦
          let (listed, deleted) = contains-succeeded_blob_ids object_key keys (c ∷ cs) id named in
          inr ((keys, refl, listed, deleted), due)
    ]
