-- ===== src/Commit/Records.antt =====
-- Which blobs have a record, before and after a round of the commit loop, and which blobs a mutation
-- may name.
use synch_api.Prelude.{
  ◌≡◌, refl, ◌∙◌, String, Bool, true, false, Option, none, some, List, [], ◌∷◌, arith, is_some,
  truthy, if◌then◌else◌, Bool-cases, Option-cases, inl, inr, ℕ, ◌+◌,
}
use synch_api.Policy.Entry.{EntryChange, is_delete}
use synch_api.Policy.BlobGc.{BlobState, staged, live, pending_delete}
use synch_api.Store.Rows.{Entry, Blob}
use synch_api.Store.Versions.{contains}
use synch_api.Store.Blobs.{read_blob, update_state}
use synch_api.Commit.Batch.{
  Context, Mutation, Batch, usable, check_named, mark_named, retire_named, write_entry, save_auto,
  apply_at, blob_of, next_entry,
}

abbrev pub has_blob : String → List Blob → Bool
has_blob id bs = is_some (read_blob id bs)

-- The blob that a mutation would have its entry name; a deletion names none.
abbrev pub named_blob : Mutation → Option String
named_blob m = truthy (if is_delete m.op then none else m.blob_id)

-- A named blob is in the object store and has a record.
abbrev pub IsUsable : List String → (String → Bool) → Option String → Type 0
IsUsable unavailable has none = Unit
IsUsable unavailable has (some id) = (contains id unavailable ≡ false) × (has id ≡ true)

has_blob-update_state :
    (j i : String) (state : BlobState) (deadline : Option ℕ) (bs : List Blob)
    → has_blob j (update_state i state deadline bs) ≡ has_blob j bs
unfolding read_blob update_state
has_blob-update_state j i state deadline [] = refl
has_blob-update_state j i state deadline (b ∷ bs) =
    ground (arith, has_blob-update_state j i state deadline bs)

pub check_named-has_blob :
    (ctx : Context) (next : Option String) (bs bs' : List Blob) (j : String)
    → check_named ctx next bs ≡ usable bs'
    → has_blob j bs' ≡ has_blob j bs
unfolding check_named
check_named-has_blob ctx none bs bs' j e = ground arith
check_named-has_blob ctx (some id) bs bs' j e = elim (Option-cases (read_blob id bs)) [
  | inl missing ↦ absurd (ground arith)
  | inr (b, found) ↦
      ground
        (arith, has_blob-update_state j id staged (some (ctx.now + ctx.blob_grace_period_ms)) bs)
]

pub check_named-IsUsable :
    (ctx : Context) (next : Option String) (bs bs' : List Blob)
    → check_named ctx next bs ≡ usable bs'
    → IsUsable ctx.unavailable_blob_ids (λ id. has_blob id bs) next
unfolding check_named
check_named-IsUsable ctx none bs bs' e = tt
check_named-IsUsable ctx (some id) bs bs' e = (ground arith, ground arith)

mark_named-has_blob :
    (next : Option String) (bs : List Blob) (j : String)
    → has_blob j (mark_named next bs) ≡ has_blob j bs
unfolding mark_named
mark_named-has_blob none bs j = refl
mark_named-has_blob (some id) bs j = has_blob-update_state j id live none bs

retire_named-has_blob :
    (now : ℕ) (current next : Option String) (es : List Entry) (bs : List Blob) (j : String)
    → has_blob j (retire_named now current next es bs) ≡ has_blob j bs
unfolding retire_named
retire_named-has_blob now none next es bs j = refl
retire_named-has_blob now (some id) next es bs j =
    ground (arith, has_blob-update_state j id pending_delete (some now) bs)

pub apply_at-has_blob :
    (ctx : Context) (mutation_id : String) (m : Mutation) (current : Option Entry)
    (change : EntryChange) (cursor : ℕ) (s : Batch) (j : String)
    → has_blob j (apply_at ctx mutation_id m current change cursor s).db.blobs
      ≡ has_blob j s.db.blobs
unfolding apply_at save_auto write_entry
apply_at-has_blob ctx mutation_id m current change cursor s j =
    elim (Bool-cases change.capture_auto_version) [ inl e ↦ rw e kept | inr e ↦ rw e kept ]
  where
    kept :
        has_blob j
          (write_entry ctx
            (blob_of current)
            change.next_blob_id
            (next_entry ctx mutation_id m change cursor)
            s.db).blobs
        ≡ has_blob j s.db.blobs
    kept =
        retire_named-has_blob ctx.now (truthy (blob_of current)) change.next_blob_id _ _ j
        ∙ mark_named-has_blob (truthy change.next_blob_id) s.db.blobs j
