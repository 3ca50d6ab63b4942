-- ===== src/Repair/Cleans.antt =====
-- What a repair keeps and what it leaves.
use synch_api.Prelude.{
  ℕ, ◌≡◌, ◌≢◌, inl, inr, refl, sym, ap, ◌∙◌, String, Bool, true, false, not, ◌||◌, Option, none,
  some, List, [], ◌∷◌, arith, Bool-cases, Option-cases, if◌then◌else◌, is_some, ltb, length, select,
  take, order_by, insert_by, suc,
}
use synch_api.Policy.BlobGc.{staged, same_state, is_blob_pinned}
use synch_api.Policy.Health.{staged_blob_stale_ms}
use synch_api.Store.Rows.{Blob, Database, ok}
use synch_api.Store.References.{read_blob_reference_facts}
use synch_api.Store.Blobs.{read_blob, list_stale_staged_blobs, is_stale_staged, created_first}
use synch_api.Store.State.{
  State, SyncPauseState, read_sync_pause, clear_sync_pause, sub_storage_used_bytes,
  vault_state_exists_for,
}
use synch_api.Blobs.Records.{
  DeleteOutcome, missing, referenced, deleted, delete_unreferenced_staged_blob,
  account_for_deleted_blobs,
}
use synch_api.Store.Sizes.{total_size}
use synch_api.Gc.Runs.{Vault, schedule_now}
use synch_api.Repair.Runs.{
  Repair, manual_repair_required, SyncRepairResult, follow_deletion, repair_each, repair_finish,
  repair_stale, repair_sync_state, stale_blobs, clear_if, is_unfinished, is_supported,
  max_repairable_stale_staged_blobs,
}

-- What the others and the deletion of a record keep, the loop keeps.
module _ (others : ℕ → Database → Database) (object_deleted : String → Bool) (now : ℕ)
    (I : Database → Type 0) (others-keep : (n : ℕ) (db : Database) → I db → I (others n db))
    (deletion-keeps : (db : Database) (id : String)
      → I db
      → I (delete_unreferenced_staged_blob db id now).0) where
  follow_deletion-keeps :
      (n : ℕ) (b : Bool) (r : Repair) (db : Database) (outcome : DeleteOutcome)
      → I db
      → I (follow_deletion (others n) b r (db, outcome)).db
  follow_deletion-keeps n b r db referenced h = h
  follow_deletion-keeps n true r db missing h = others-keep n db h
  follow_deletion-keeps n false r db missing h = others-keep n db h
  follow_deletion-keeps n true r db deleted h = others-keep n db h
  follow_deletion-keeps n false r db deleted h = others-keep n db h

  repair_each-keeps :
      (bs : List Blob) (r : Repair) → I r.db → I (repair_each others object_deleted now bs r).db
  unfolding repair_each
  repair_each-keeps [] r h = h
  repair_each-keeps (b ∷ bs) r h =
      let (db, outcome) = delete_unreferenced_staged_blob r.db b.blob_id now in
      repair_each-keeps bs
        (follow_deletion (others (length bs)) (object_deleted b.blob_id) r (db, outcome))
        (follow_deletion-keeps (length bs) (object_deleted b.blob_id) r db outcome
          (deletion-keeps r.db b.blob_id h))

read_sync_pause-sub_storage_used_bytes :
    (b : Bool) (bytes : ℕ) (s : State)
    → read_sync_pause (if b then sub_storage_used_bytes bytes s else s) ≡ read_sync_pause s
unfolding read_sync_pause sub_storage_used_bytes
read_sync_pause-sub_storage_used_bytes true bytes none = refl
read_sync_pause-sub_storage_used_bytes true bytes (some st) = refl
read_sync_pause-sub_storage_used_bytes false bytes s = refl

read_sync_pause-account_for_deleted_blobs :
    (db : Database) (rows : List Blob × List Blob)
    → read_sync_pause (account_for_deleted_blobs db rows).state ≡ read_sync_pause db.state
unfolding account_for_deleted_blobs
read_sync_pause-account_for_deleted_blobs db (kept, gone) =
    read_sync_pause-sub_storage_used_bytes (ltb 0 (total_size gone)) (total_size gone) db.state

read_sync_pause-delete_unreferenced_staged_blob :
    (db : Database) (id : String) (now : ℕ)
    → read_sync_pause (delete_unreferenced_staged_blob db id now).0.state ≡ read_sync_pause db.state
unfolding delete_unreferenced_staged_blob
read_sync_pause-delete_unreferenced_staged_blob db id now =
    elim (Option-cases (read_blob id db.blobs)) [
      | inl gone ↦ rw (gone, delete_unreferenced_staged_blob) refl
      | inr (b, found) ↦
          elim (Bool-cases (
            not (same_state b.state staged)
            || is_blob_pinned (read_blob_reference_facts db id now))) [
              | inl used ↦ rw (found, delete_unreferenced_staged_blob) (rw used refl)
              | inr free ↦
                  rw (found, delete_unreferenced_staged_blob)
                    (rw free (read_sync_pause-account_for_deleted_blobs db _))
            ]
    ]

read_sync_pause-clear_sync_pause : (s : State) → read_sync_pause (clear_sync_pause s) ≡ none
unfolding read_sync_pause clear_sync_pause
read_sync_pause-clear_sync_pause none = refl
read_sync_pause-clear_sync_pause (some st) = refl

insert_by-ne : (first : Blob → Blob → Bool) (b : Blob) (bs : List Blob) → insert_by first b bs ≢ []
unfolding insert_by
insert_by-ne first b [] e = cc
insert_by-ne first b (x ∷ xs) e = elim (Bool-cases (first b x)) [
  | inl before ↦ absurd (ground arith)
  | inr after ↦ absurd (ground arith)
]

take-order_by-nil :
    (n : ℕ) (first : Blob → Blob → Bool) (bs : List Blob)
    → take (suc n) (order_by first bs) ≡ []
    → bs ≡ []
unfolding order_by
take-order_by-nil n first [] e = refl
take-order_by-nil n first (b ∷ bs) e = absurd (by_rows (insert_by first b (order_by first bs)) refl)
  where
    by_rows : (rows : List Blob) → insert_by first b (order_by first bs) ≡ rows → ⊥
    by_rows [] is = insert_by-ne first b (order_by first bs) is
    by_rows (x ∷ xs) is = ground (arith, e, is)

-- No stale staged record is left.
abbrev pub IsClean : ℕ → Database → Type 0
IsClean now db = select (is_stale_staged now staged_blob_stale_ms) db.blobs ≡ []

stale_blobs-IsClean : (now : ℕ) (db : Database) → stale_blobs now db ≡ [] → IsClean now db
unfolding list_stale_staged_blobs
stale_blobs-IsClean now db e =
    take-order_by-nil max_repairable_stale_staged_blobs created_first
      (select (is_stale_staged now staged_blob_stale_ms) db.blobs) e

-- What follows the loop, where it finds nothing left to repair by hand.
record Finished (now : ℕ) (pause : Option SyncPauseState) (r : Repair) (v' : Vault) : Type 0 where
  blobs_kept : v'.db.blobs ≡ r.db.blobs
  state_is : v'.db.state ≡ (if is_some pause then clear_sync_pause r.db.state else r.db.state)
  nothing_stale : stale_blobs now r.db ≡ []

clear_if-blobs : (b : Bool) (v : Vault) → (clear_if b v).db.blobs ≡ v.db.blobs
clear_if-blobs true v = refl
clear_if-blobs false v = refl

clear_if-state :
    (b : Bool) (v : Vault)
    → (clear_if b v).db.state ≡ (if b then clear_sync_pause v.db.state else v.db.state)
clear_if-state true v = refl
clear_if-state false v = refl

repair_finish-Finished :
    (now : ℕ) (pause : Option SyncPauseState) (r : Repair) (v v' : Vault)
    (result : SyncRepairResult)
    → repair_finish now pause r v ≡ (v', result)
    → result.status ≢ manual_repair_required
    → Finished now pause r v'
unfolding repair_finish
repair_finish-Finished now pause r v v' result e done =
    elim (Bool-cases (is_unfinished r.issue (stale_blobs now r.db))) [
      | inl more ↦ absurd (done (ground (arith, more)))
      | inr over ↦
          let scheduled = schedule_now now (record v { db = r.db }) in
          let is : clear_if (is_some pause) scheduled ≡ v' = ground (arith, over) in
          record {
            blobs_kept =
                ap (λ (w : Vault). w.db.blobs) (sym is) ∙ clear_if-blobs (is_some pause) scheduled;
            state_is =
                ap (λ (w : Vault). w.db.state) (sym is) ∙ clear_if-state (is_some pause) scheduled;
            nothing_stale = none_left (stale_blobs now r.db) over;
          }
    ]
  where
    none_left : (bs : List Blob) → is_unfinished r.issue bs ≡ false → bs ≡ []
    none_left [] h = refl
    none_left (b ∷ bs) h = absurd (ground arith)

abbrev begin : Database → Repair
begin db = record { db = db; deleted_count = 0; issue = none }

-- A repair of a vault that is there is its loop with what follows, or stops before the loop.
repair_stale-Finished :
    (others : ℕ → Database → Database) (object_deleted : String → Bool) (now : ℕ) (v v' : Vault)
    (pause : Option SyncPauseState) (bs : List Blob) (result : SyncRepairResult)
    → repair_stale others object_deleted now v pause bs ≡ (v', result)
    → result.status ≢ manual_repair_required
    → Finished now pause (repair_each others object_deleted now bs (begin v.db)) v'
repair_stale-Finished others object_deleted now v v' pause bs result e done =
    elim (Bool-cases (is_supported pause)) [
      | inl known ↦ elim (Bool-cases (ltb max_repairable_stale_staged_blobs (length bs))) [
        | inl many ↦ absurd (done (ground (arith, known, many)))
        | inr few ↦
            repair_finish-Finished now pause (repair_each others object_deleted now bs (begin v.db))
              v v' result (ground (arith, known, few)) done
      ]
      | inr unknown ↦ absurd (done (ground (arith, unknown)))
    ]

unpaused :
    (others : ℕ → Database → Database) (object_deleted : String → Bool) (now : ℕ) (bs : List Blob)
    (db : Database) (pause : Option SyncPauseState)
    → ((n : ℕ) (d : Database)
        → read_sync_pause d.state ≡ none
        → read_sync_pause (others n d).state ≡ none)
    → read_sync_pause db.state ≡ pause
    → read_sync_pause (
        if is_some pause
        then clear_sync_pause (repair_each others object_deleted now bs (begin db)).db.state
        else (repair_each others object_deleted now bs (begin db)).db.state)
      ≡ none
unpaused others object_deleted now bs db none keep is =
    repair_each-keeps others object_deleted now (λ (d : Database). read_sync_pause d.state ≡ none)
      keep (λ d id h. read_sync_pause-delete_unreferenced_staged_blob d id now ∙ h) bs (begin db) is
unpaused others object_deleted now bs db (some pause) keep is = read_sync_pause-clear_sync_pause _

-- A repair of a vault that is there, and that does not ask for a repair by hand, leaves the vault
-- without a pause and without a stale staged record, where the other requests that run meanwhile
-- pause no vault that is not paused.
pub repair_sync_state-IsClean :
    (others : ℕ → Database → Database) (object_deleted : String → Bool) (vault_id : String)
    (now : ℕ) (v v' : Vault) (result : SyncRepairResult)
    → ((n : ℕ) (d : Database)
        → read_sync_pause d.state ≡ none
        → read_sync_pause (others n d).state ≡ none)
    → vault_state_exists_for vault_id v.db.state ≡ ok true
    → repair_sync_state others object_deleted vault_id now v ≡ ok (v', result)
    → result.status ≢ manual_repair_required
    → (read_sync_pause v'.db.state ≡ none) × IsClean now v'.db
unfolding repair_sync_state
repair_sync_state-IsClean others object_deleted vault_id now v v' result keep there e done =
    let pause = read_sync_pause v.db.state in
    let bs = stale_blobs now v.db in
    let f =
      repair_stale-Finished others object_deleted now v v' pause bs result (ground (arith, there))
        done in
    (
      ap read_sync_pause f.state_is ∙ unpaused others object_deleted now bs v.db pause keep refl,
      ap (select (is_stale_staged now staged_blob_stale_ms)) f.blobs_kept
          ∙ stale_blobs-IsClean now (repair_each others object_deleted now bs (begin v.db)).db
              f.nothing_stale,
    )
