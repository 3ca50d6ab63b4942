-- ===== src/Commit/Live.antt =====
-- The commit transaction keeps every blob that a current entry names live.
use synch_api.Prelude.{
  ℕ, ◌+◌, ◌≡◌, ◌≢◌, refl, String, Bool, true, false, not, ◌&&◌, Option, none, some, List, arith,
  same?, truthy, Bool-cases, Option-cases, inl, inr, ap, ◌∙◌, ◌⊎◌,
}
use synch_api.Policy.Entry.{EntryChange}
use synch_api.Policy.BlobGc.{staged, live, pending_delete, same_state}
use synch_api.Store.Rows.{Entry, Blob, Database}
use synch_api.Store.Entries.{upsert_entry, All-upsert_entry}
use synch_api.Store.References.{current_blob_reference}
use synch_api.Store.Blobs.{read_blob, update_state}
use synch_api.Store.Liveness.{
  state_of, HasLiveBlob, AllLive, state_of-update_state, AllLive-update_state, AllLive-update_live,
  AllLive-update_dead, LiveFor,
}
use synch_api.Store.Sizes.{total_size, total_size-update_state}
use synch_api.Commit.Batch.{
  Context, Mutation, Batch, usable, check_blob, mark_live, write_entry, next_entry, apply_at,
  save_auto, blob_of, check_named, mark_named, retire_named,
}

and_not→false : (a b : Bool) → (not a && not b) ≡ true → b ≡ false
and_not→false a b h = ground arith

-- What the check of the blob does to the table, where it lets the mutation through.
abbrev Demoted : List Blob → List Blob → Type 0
Demoted bs bs' =
    (bs' ≡ bs)
    ⊎ ((id : String) × (deadline : Option ℕ) × (state_of id bs ≢ some live)
        × (bs' ≡ update_state id staged deadline bs))

check_named-Demoted :
    (ctx : Context) (next : Option String) (bs bs' : List Blob)
    → check_named ctx next bs ≡ usable bs'
    → Demoted bs bs'
unfolding check_named
check_named-Demoted ctx none bs bs' e = inl (ground arith)
check_named-Demoted ctx (some id) bs bs' e = elim (Option-cases (read_blob id bs)) [
  | inl missing ↦ absurd (ground arith)
  | inr (b, found) ↦ elim (Bool-cases (same_state b.state pending_delete)) [
    | inl dying ↦ inr (id, some (ctx.now + ctx.blob_grace_period_ms), ground arith, ground arith)
    | inr other ↦ inl (ground arith)
  ]
]

-- A blob that passes the check has a record, before and after.
abbrev pub HasRecord : Option String → List Blob → Type 0
HasRecord none bs = Unit
HasRecord (some id) bs = state_of id bs ≢ none

pub check_named-HasRecord :
    (ctx : Context) (next : Option String) (bs bs' : List Blob)
    → check_named ctx next bs ≡ usable bs'
    → HasRecord next bs'
unfolding check_named
check_named-HasRecord ctx none bs bs' e = tt
check_named-HasRecord ctx (some id) bs bs' e =
    ground
      (arith, state_of-update_state id id staged (some (ctx.now + ctx.blob_grace_period_ms)) bs)

-- The check lets a blob through only if it has a record, and demotes none that is live.
pub check_blob-AllLive :
    (ctx : Context) (next : Option String) (es : List Entry) (bs bs' : List Blob)
    → check_blob ctx next bs ≡ usable bs'
    → AllLive es bs
    → AllLive es bs'
check_blob-AllLive ctx next es bs bs' e h = elim (check_named-Demoted ctx (truthy next) bs bs' e) [
  | inl kept ↦ rw kept h
  | inr (id, deadline, dead, demoted) ↦
      rw demoted (AllLive-update_dead id staged deadline es bs dead h)
]

mark_named-LiveFor :
    (next : Option String) (bs : List Blob) → HasRecord next bs → LiveFor next (mark_named next bs)
unfolding mark_named
mark_named-LiveFor none bs has = tt
mark_named-LiveFor (some id) bs has = ground (arith, state_of-update_state id id live none bs)

mark_named-AllLive :
    (next : Option String) (es : List Entry) (bs : List Blob)
    → AllLive es bs
    → AllLive es (mark_named next bs)
unfolding mark_named
mark_named-AllLive none es bs h = h
mark_named-AllLive (some id) es bs h = AllLive-update_live id es bs h

retire_named-AllLive :
    (now : ℕ) (current next : Option String) (es : List Entry) (bs : List Blob)
    → AllLive es bs
    → AllLive es (retire_named now current next es bs)
unfolding retire_named
retire_named-AllLive now none next es bs h = h
retire_named-AllLive now (some id) next es bs h =
    elim (Bool-cases (not (same? next id) && not (current_blob_reference id es))) [
      | inl free ↦ rw free (
          AllLive-update_state id pending_delete (some now) es bs
            (and_not→false (same? next id) (current_blob_reference id es) free) h)
      | inr used ↦ rw used h
    ]

-- The writes of one accepted mutation.
write_entry-AllLive :
    (ctx : Context) (current next : Option String) (row : Entry) (db : Database)
    → row.blob_id ≡ next
    → HasRecord (truthy next) db.blobs
    → AllLive db.entries db.blobs
    → AllLive
        (write_entry ctx current next row db).entries
        (write_entry ctx current next row db).blobs
unfolding write_entry
write_entry-AllLive ctx current next row db named has h =
    retire_named-AllLive ctx.now (truthy current) next (upsert_entry row db.entries)
      (mark_live next db.blobs)
      (All-upsert_entry (HasLiveBlob (mark_live next db.blobs)) row db.entries
        (rw named (mark_named-LiveFor (truthy next) db.blobs has))
        (mark_named-AllLive (truthy next) db.entries db.blobs h))

-- What one round needs of the table of blobs it goes on with, and what it leaves.
pub apply_at-AllLive :
    (ctx : Context) (mutation_id : String) (m : Mutation) (current : Option Entry)
    (change : EntryChange) (cursor : ℕ) (s : Batch)
    → HasRecord (truthy change.next_blob_id) s.db.blobs
    → AllLive s.db.entries s.db.blobs
    → AllLive
        (apply_at ctx mutation_id m current change cursor s).db.entries
        (apply_at ctx mutation_id m current change cursor s).db.blobs
unfolding apply_at save_auto
apply_at-AllLive ctx mutation_id m current change cursor s has h =
    let row = next_entry ctx mutation_id m change cursor in
    let kept = write_entry-AllLive ctx (blob_of current) change.next_blob_id row s.db refl has h in
    elim (Bool-cases change.capture_auto_version) [ inl e ↦ rw e kept | inr e ↦ rw e kept ]

check_named-total_size :
    (ctx : Context) (next : Option String) (bs bs' : List Blob)
    → check_named ctx next bs ≡ usable bs'
    → total_size bs' ≡ total_size bs
check_named-total_size ctx next bs bs' e = elim (check_named-Demoted ctx next bs bs' e) [
  | inl kept ↦ ap total_size kept
  | inr (id, deadline, dead, demoted) ↦
      ap total_size demoted ∙ total_size-update_state id staged deadline bs
]

mark_named-total_size :
    (next : Option String) (bs : List Blob) → total_size (mark_named next bs) ≡ total_size bs
unfolding mark_named
mark_named-total_size none bs = refl
mark_named-total_size (some id) bs = total_size-update_state id live none bs

retire_named-total_size :
    (now : ℕ) (current next : Option String) (es : List Entry) (bs : List Blob)
    → total_size (retire_named now current next es bs) ≡ total_size bs
unfolding retire_named
retire_named-total_size now none next es bs = refl
retire_named-total_size now (some id) next es bs =
    ground (arith, total_size-update_state id pending_delete (some now) bs)

-- No round of a commit changes the bytes that the records stand for.
pub apply_at-total_size :
    (ctx : Context) (mutation_id : String) (m : Mutation) (current : Option Entry)
    (change : EntryChange) (cursor : ℕ) (s : Batch)
    → total_size (apply_at ctx mutation_id m current change cursor s).db.blobs
      ≡ total_size s.db.blobs
unfolding apply_at save_auto write_entry
apply_at-total_size ctx mutation_id m current change cursor s =
    let row = next_entry ctx mutation_id m change cursor in
    let kept =
      retire_named-total_size ctx.now (truthy (blob_of current)) change.next_blob_id
        (upsert_entry row s.db.entries) (mark_live change.next_blob_id s.db.blobs)
      ∙ mark_named-total_size (truthy change.next_blob_id) s.db.blobs in
    elim (Bool-cases change.capture_auto_version) [ inl e ↦ rw e kept | inr e ↦ rw e kept ]

pub check_blob-total_size :
    (ctx : Context) (next : Option String) (bs bs' : List Blob)
    → check_blob ctx next bs ≡ usable bs'
    → total_size bs' ≡ total_size bs
check_blob-total_size ctx next = check_named-total_size ctx (truthy next)
