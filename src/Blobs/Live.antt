-- ===== src/Blobs/Live.antt =====
-- The transactions of src/sync-coordinator/application/services/blob-record-operations.ts against
-- the invariants of the database.
use mathlib.Core.Option
use synch_api.Prelude.{
  ℕ, ◌≡◌, inl, inr, refl, sym, subst, String, Bool, true, false, not, ◌&&◌, ◌||◌, some, List, arith,
  is_some, Bool-cases, Option-cases,
}
use synch_api.Policy.Blob.{
  StageDecision, sync_paused, rejected, staged_with, decide_blob_stage-IsStageable,
}
use synch_api.Policy.BlobGc.{
  staged, pending_delete, same_state, is_blob_pinned, PendingDecision, mark_pending_delete, retain,
  decide_pending_delete,
}
use synch_api.Store.Rows.{Blob, CoordinatorState, Database, ok}
use synch_api.Store.References.{current_blob_reference, read_blob_reference_facts}
use synch_api.Store.Versions.{contains}
use synch_api.Store.Blobs.{
  read_blob, delete_where, delete_blob_record, delete_collectible_blobs, collectible_blob,
  matches_record, collection_facts, read_blob-id,
}
use synch_api.Store.Sizes.{total_size-update_state}
use synch_api.Store.Liveness.{
  AllLive, AllLive-persist_stage, AllLive-persist_dead, AllLive-update_state, AllLive-delete_where,
}
use synch_api.Blobs.Records.{
  account_for_deleted_blobs, pinned_if_there, follow_stage, stage_blob_record,
  delete_unreferenced_staged_blob, mark_unpinned_blob_pending_delete,
  delete_collectible_blob_records, existing_blob,
}
use synch_api.Blobs.Accounting.{Balances, IsAccounted, account_for_deleted_blobs-IsAccounted}
use synch_api.Blobs.Staging.{decision_on, stage_blob_record-Decided, stage_blob_record-IsAccounted}

-- The two invariants of the database.
pub record IsSound (db : Database) : Type 0 where
  pub live : AllLive db.entries db.blobs
  pub accounted : IsAccounted db

follow_stage-AllLive :
    (db : Database) (id : String) (size now deadline : ℕ) (st : CoordinatorState)
    (d : StageDecision)
    → d ≡ decision_on db id size now deadline st
    → AllLive db.entries db.blobs
    → AllLive
        (follow_stage db id size now deadline d).entries
        (follow_stage db id size now deadline d).blobs
unfolding follow_stage read_blob_reference_facts
follow_stage-AllLive db id size now deadline st (sync_paused reason) e h = h
follow_stage-AllLive db id size now deadline st (rejected why) e h = h
follow_stage-AllLive db id size now deadline st (staged_with delta) e h =
    elim (Option-cases (read_blob id db.blobs)) [
      | inl new ↦ AllLive-persist_dead id size now deadline db.entries db.blobs (ground arith) h
      | inr (b, old) ↦
          AllLive-persist_stage id size now deadline db.entries db.blobs
            (free b old (decide_blob_stage-IsStageable _ delta (sym e)).unpinned) h
    ]
  where
    free :
        (b : Blob)
        → read_blob id db.blobs ≡ some b
        → (is_some (Option.map existing_blob (read_blob id db.blobs))
            && pinned_if_there db id now (read_blob id db.blobs))
          ≡ false
        → current_blob_reference id db.entries ≡ false
    free b old unpinned = ground arith

stage_blob_record-AllLive :
    (db db' : Database) (id : String) (size now deadline : ℕ) (d : StageDecision)
    → stage_blob_record db id size now deadline ≡ ok (db', d)
    → AllLive db.entries db.blobs
    → AllLive db'.entries db'.blobs
stage_blob_record-AllLive db db' id size now deadline d e h =
    elim (stage_blob_record-Decided db id size now deadline db' d e) [
      | inl (reason, refused, kept) ↦
          subst (λ (x : Database). AllLive x.entries x.blobs) (sym kept) h
      | inr (st, is, decided, done) ↦
          subst (λ (x : Database). AllLive x.entries x.blobs) (sym done)
            (follow_stage-AllLive db id size now deadline st d decided h)
    ]

-- Staging an upload.
pub stage_blob_record-IsSound :
    (db db' : Database) (id : String) (size now deadline : ℕ) (d : StageDecision)
    → stage_blob_record db id size now deadline ≡ ok (db', d)
    → IsSound db
    → IsSound db'
stage_blob_record-IsSound db db' id size now deadline d e s = record {
  live = stage_blob_record-AllLive db db' id size now deadline d e s.live;
  accounted = stage_blob_record-IsAccounted db db' id size now deadline d e s.accounted;
}

-- A deletion of records that no current entry names, with its bytes given back.
pub account_for_deleted_blobs-IsSound :
    (db : Database) (p : Blob → Bool)
    → ((b : Blob) → p b ≡ true → current_blob_reference b.blob_id db.entries ≡ false)
    → IsSound db
    → IsSound (account_for_deleted_blobs db (delete_where p db.blobs))
unfolding account_for_deleted_blobs
account_for_deleted_blobs-IsSound db p free s = record {
  live = AllLive-delete_where p db.entries db.blobs free s.live;
  accounted = account_for_deleted_blobs-IsAccounted db p s.accounted;
}

unreferenced_taken :
    (db : Database) (id : String) (now : ℕ) (b : Blob)
    → is_blob_pinned (read_blob_reference_facts db id now) ≡ false
    → matches_record id (some staged) b ≡ true
    → current_blob_reference b.blob_id db.entries ≡ false
unfolding read_blob_reference_facts
unreferenced_taken db id now b unpinned taken = ground arith

-- Dropping a staged record in a repair.
pub delete_unreferenced_staged_blob-IsSound :
    (db : Database) (id : String) (now : ℕ)
    → IsSound db
    → IsSound (delete_unreferenced_staged_blob db id now).0
unfolding delete_unreferenced_staged_blob delete_blob_record
delete_unreferenced_staged_blob-IsSound db id now s = elim (Option-cases (read_blob id db.blobs)) [
  | inl gone ↦ rw (gone, delete_unreferenced_staged_blob) s
  | inr (b, found) ↦
      elim (Bool-cases
        (not (same_state b.state staged) || is_blob_pinned (read_blob_reference_facts db id now))) [
          | inl used ↦ rw (found, delete_unreferenced_staged_blob) (rw used s)
          | inr free ↦
              rw (found, delete_unreferenced_staged_blob)
                (rw free (
                  account_for_deleted_blobs-IsSound db (matches_record id (some staged))
                    (λ row. unreferenced_taken db id now row (or→false _ _ free)) s))
        ]
]
  where
    or→false : (a b : Bool) → (a || b) ≡ false → b ≡ false
    or→false a b h = ground arith

collectible_taken :
    (db : Database) (ids : List String) (now : ℕ) (b : Blob)
    → (contains b.blob_id ids && collectible_blob db now b) ≡ true
    → current_blob_reference b.blob_id db.entries ≡ false
unfolding collectible_blob read_blob_reference_facts
collectible_taken db ids now b taken = ground arith

-- Deleting the records of collected objects.
pub delete_collectible_blob_records-IsSound :
    (db : Database) (ids : List String) (now : ℕ)
    → IsSound db
    → IsSound (delete_collectible_blob_records db ids now).0
unfolding delete_collectible_blob_records delete_collectible_blobs
delete_collectible_blob_records-IsSound db ids now =
    account_for_deleted_blobs-IsSound db (λ b. contains b.blob_id ids && collectible_blob db now b)
      (collectible_taken db ids now)

mark_free :
    (db : Database) (now deadline : ℕ) (b : Blob)
    → decide_pending_delete (collection_facts db now b) now ≡ mark_pending_delete deadline
    → current_blob_reference b.blob_id db.entries ≡ false
unfolding decide_pending_delete read_blob_reference_facts
mark_free db now deadline b e = ground arith

module _ (db : Database) (id : String) (now : ℕ) (b : Blob)
    (found : read_blob id db.blobs ≡ some b) where
  abbrev decision : PendingDecision
  decision = decide_pending_delete (collection_facts db now b) now

  marked :
      (d : PendingDecision)
      → decision ≡ d
      → IsSound db
      → IsSound (mark_unpinned_blob_pending_delete db id now)
  unfolding mark_unpinned_blob_pending_delete
  marked (retain why) e s =
      rw (found, mark_unpinned_blob_pending_delete)
        (rw e (record { live = s.live; accounted = s.accounted }))
  marked (mark_pending_delete deadline) e s =
      rw (found, mark_unpinned_blob_pending_delete)
        (rw e (record {
          live =
              AllLive-update_state id pending_delete (some deadline) db.entries db.blobs
                (subst (λ (i : String). current_blob_reference i db.entries ≡ false)
                  (read_blob-id id db.blobs found) (mark_free db now deadline b e))
                s.live;
          accounted =
              subst (Balances db.state)
                (sym (total_size-update_state id pending_delete (some deadline) db.blobs))
                s.accounted;
        }))

-- Retiring a blob that nothing pins.
pub mark_unpinned_blob_pending_delete-IsSound :
    (db : Database) (id : String) (now : ℕ)
    → IsSound db
    → IsSound (mark_unpinned_blob_pending_delete db id now)
unfolding mark_unpinned_blob_pending_delete
mark_unpinned_blob_pending_delete-IsSound db id now s =
    elim (Option-cases (read_blob id db.blobs)) [
      | inl gone ↦
          rw (gone, mark_unpinned_blob_pending_delete)
            (record { live = s.live; accounted = s.accounted })
      | inr (b, found) ↦ marked db id now b found (decision db id now b found) refl s
    ]
