-- ===== src/Blobs/Staging.antt =====
-- `stageBlobRecord`: when an upload is staged, and what the vault's row says then.
use mathlib.Core.Option
use synch_api.Prelude.{
  ℕ, ◌+◌, ◌≤◌, ◌≡◌, ◌⊎◌, inl, inr, refl, sym, ap, ◌∙◌, subst, String, true, Option, none, some,
  List, [], ◌∷◌, arith, ltb, if◌then◌else◌, is_some, Bool-cases, Option-cases,
}
use synch_api.Policy.Blob.{
  StageDecision, sync_paused, rejected, staged_with, decide_blob_stage,
  decide_blob_stage-IsStageable, ExistingBlob,
}
use synch_api.Policy.BlobGc.{staged}
use synch_api.Store.Rows.{Blob, CoordinatorState, Database, ok}
use synch_api.Store.Blobs.{read_blob, persist_stage}
use synch_api.Store.Sizes.{room, total_size, total_size-persist_stage}
use synch_api.Store.State.{
  State, read_sync_pause, read_vault_id, read_vault_limits, read_storage_used_bytes,
  add_storage_used_bytes, pause_sync, VaultStateLimits,
}
use synch_api.Blobs.Records.{
  existing_blob, follow_stage, stage_input, stage_running, stage_blob_record,
}
use synch_api.Blobs.Accounting.{Balances, IsAccounted}

abbrev pub limits_of : CoordinatorState → VaultStateLimits
limits_of st = record {
  storage_limit_bytes = st.storage_limit_bytes;
  max_file_size_bytes = st.max_file_size_bytes;
  version_history_retention_days = st.version_history_retention_days;
}

module _ (db : Database) (id : String) (size now deadline : ℕ) where
  -- The decision on the vault's row as it stands.
  abbrev pub decision_on : CoordinatorState → StageDecision
  decision_on st =
      decide_blob_stage
        (stage_input db id size now (read_blob id db.blobs) st.storage_used_bytes (limits_of st))

  -- A call that does not throw was refused by a pause, or decided on the vault's row.
  abbrev pub Decided : Database → StageDecision → Type 0
  Decided db' d =
      ((reason : String) × (d ≡ sync_paused reason) × (db' ≡ db))
      ⊎ ((st : CoordinatorState) × (db.state ≡ some st)
          × (d ≡ decision_on st)
          × (db' ≡ follow_stage db id size now deadline d))

  stage_running-Decided :
      (db' : Database) (d : StageDecision)
      → stage_running db id size now deadline ≡ ok (db', d)
      → Decided db' d
  unfolding stage_running read_vault_id read_vault_limits read_storage_used_bytes
  stage_running-Decided db' d e = elim (Option-cases db.state) [
    | inl unset ↦ absurd (ground arith)
    | inr (st, is) ↦ inr (st, is, ground arith, ground arith)
  ]

  pub stage_blob_record-Decided :
      (db' : Database) (d : StageDecision)
      → stage_blob_record db id size now deadline ≡ ok (db', d)
      → Decided db' d
  unfolding stage_blob_record
  stage_blob_record-Decided db' d e = elim (Option-cases (read_sync_pause db.state)) [
    | inl running ↦ stage_running-Decided db' d (rw (running, stage_blob_record) at e)
    | inr (p, paused) ↦ inl (p.reason, ground arith, ground arith)
  ]

-- The row of an upload that was staged: new, or the old one with its size.
abbrev staged_row : String → ℕ → ℕ → ℕ → Option Blob → Blob
staged_row id size now deadline none = record {
  blob_id = id;
  state = staged;
  size_bytes = size;
  created_at = now;
  last_uploaded_at = now;
  delete_after = some deadline;
}
staged_row id size now deadline (some b) = record b {
  state = staged;
  last_uploaded_at = now;
  delete_after = some deadline;
}

read_blob-persist_stage :
    (id : String) (size now deadline : ℕ) (bs : List Blob)
    → read_blob id (persist_stage id size now deadline bs)
      ≡ some (staged_row id size now deadline (read_blob id bs))
unfolding read_blob persist_stage
read_blob-persist_stage id size now deadline [] = ground arith
read_blob-persist_stage id size now deadline (b ∷ bs) =
    ground (arith, read_blob-persist_stage id size now deadline bs)

is_some-map : {A B : Type 0} (f : A → B) (o : Option A) → is_some (Option.map f o) ≡ is_some o
is_some-map f none = refl
is_some-map f (some a) = refl

Balances-pause :
    (state : State) (now total : ℕ) (reason : String)
    → Balances state total
    → Balances (pause_sync now reason state) total
unfolding pause_sync
Balances-pause none now total reason h = h
Balances-pause (some st) now total reason h = h

Balances-reserve :
    (st : CoordinatorState) (delta total : ℕ)
    → Balances (some st) total
    → Balances
        (if ltb 0 delta then add_storage_used_bytes delta (some st) else some st)
        (total + delta)
unfolding add_storage_used_bytes
Balances-reserve st delta total h = elim (Bool-cases (ltb 0 delta)) [
  | inl e ↦ rw e (omega arith)
  | inr e ↦ rw e (ground arith)
]

module _ (db : Database) (id : String) (size now deadline : ℕ) (st : CoordinatorState)
    (is : db.state ≡ some st) where
  staged-room :
      (delta : ℕ)
      → decision_on db id size now deadline st ≡ staged_with delta
      → delta ≡ room (read_blob id db.blobs) size
  staged-room delta e =
      let s = decide_blob_stage-IsStageable _ delta e in room_of (read_blob id db.blobs) s.reserves
    where
      room_of :
          (o : Option Blob)
          → delta ≡ (if is_some (Option.map existing_blob o) then 0 else size)
          → delta ≡ room o size
      room_of none h = h
      room_of (some b) h = h

  -- The counter after the reservation.
  follow_stage-used :
      (delta : ℕ)
      → (st' : CoordinatorState) × ((follow_stage db id size now deadline (staged_with delta)).state
          ≡ some st')
        × (st'.storage_used_bytes ≡ st.storage_used_bytes + delta)
        × (st'.storage_limit_bytes ≡ st.storage_limit_bytes)
  unfolding follow_stage add_storage_used_bytes
  follow_stage-used delta = elim (Bool-cases (ltb 0 delta)) [
    | inl more ↦ (
      record st { storage_used_bytes = st.storage_used_bytes + delta },
      rw (more, is),
      refl,
      refl,
    )
    | inr none_more ↦ (st, rw (none_more, is), ground arith, refl)
  ]

  follow_stage-IsAccounted :
      (d : StageDecision)
      → d ≡ decision_on db id size now deadline st
      → IsAccounted db
      → IsAccounted (follow_stage db id size now deadline d)
  unfolding follow_stage pause_sync
  follow_stage-IsAccounted (sync_paused reason) e h =
      Balances-pause db.state now (total_size db.blobs) reason h
  follow_stage-IsAccounted (rejected why) e h = h
  follow_stage-IsAccounted (staged_with delta) e h =
      subst (Balances (if ltb 0 delta then add_storage_used_bytes delta db.state else db.state))
        (ap (λ (r : ℕ). total_size db.blobs + r) (staged-room delta (sym e))
          ∙ sym (total_size-persist_stage id size now deadline db.blobs))
        (rw is (
          Balances-reserve st delta (total_size db.blobs)
            (subst (λ (x : State). Balances x (total_size db.blobs)) is h)))

-- Staging keeps the counter equal to the records' bytes.
pub stage_blob_record-IsAccounted :
    (db db' : Database) (id : String) (size now deadline : ℕ) (d : StageDecision)
    → stage_blob_record db id size now deadline ≡ ok (db', d)
    → IsAccounted db
    → IsAccounted db'
stage_blob_record-IsAccounted db db' id size now deadline d e h =
    elim (stage_blob_record-Decided db id size now deadline db' d e) [
      | inl (reason, refused, kept) ↦ subst IsAccounted (sym kept) h
      | inr (st, is, decided, done) ↦
          subst IsAccounted (sym done)
            (follow_stage-IsAccounted db id size now deadline st is d decided h)
    ]

-- What a staged upload leaves: a staged record of that size with the given deadline, within the
-- limits that were set when it was staged.
pub record IsReserved (st : CoordinatorState) (known : Option Blob) (id : String)
    (size deadline : ℕ) (db' : Database) : Type 0 where
  pub row : Blob
  pub row_read : read_blob id db'.blobs ≡ some row
  pub row_staged : row.state ≡ staged
  pub row_size : row.size_bytes ≡ size
  pub row_deadline : row.delete_after ≡ some deadline
  pub after : CoordinatorState
  pub after_read : db'.state ≡ some after
  pub used : after.storage_used_bytes ≡ st.storage_used_bytes + room known size
  pub file_fits : (st.max_file_size_bytes ≡ 0) ⊎ (size ≤ st.max_file_size_bytes)
  pub within_quota :
      (st.storage_limit_bytes ≡ 0)
      ⊎ (after.storage_used_bytes ≤ st.storage_limit_bytes)
      ⊎ (is_some known ≡ true)

staged_row-facts :
    (id : String) (size now deadline : ℕ) (known : Option Blob)
    → ((b : Blob) → known ≡ some b → b.size_bytes ≡ size)
    → ((staged_row id size now deadline known).state ≡ staged)
      × ((staged_row id size now deadline known).size_bytes ≡ size)
      × ((staged_row id size now deadline known).delete_after ≡ some deadline)
staged_row-facts id size now deadline none h = (refl, refl, refl)
staged_row-facts id size now deadline (some b) h = (refl, h b refl, refl)

-- An upload that is accepted on the vault's row `st` is recorded as staged under its size and
-- deadline; the counter grows by its size just if it had no record; and the file size limit and,
-- for a new blob, the storage limit hold, where they are set.
pub stage_blob_record-IsReserved :
    (db db' : Database) (id : String) (size now deadline delta : ℕ) (st : CoordinatorState)
    → db.state ≡ some st
    → stage_blob_record db id size now deadline ≡ ok (db', staged_with delta)
    → IsReserved st (read_blob id db.blobs) id size deadline db'
unfolding follow_stage
stage_blob_record-IsReserved db db' id size now deadline delta st is e =
    elim (stage_blob_record-Decided db id size now deadline db' (staged_with delta) e) [
      | inl (reason, refused, kept) ↦ absurd (cc)
      | inr (st₁, is₁, decided, done) ↦
          let same_row : st₁ ≡ st = cc (is, is₁) in
          let decided : staged_with delta ≡ decision_on db id size now deadline st =
            decided ∙ ap (decision_on db id size now deadline) same_row in
          let s = decide_blob_stage-IsStageable _ delta (sym decided) in
          let (after, read, used, limit) = follow_stage-used db id size now deadline st is delta in
          let facts =
            staged_row-facts id size now deadline (read_blob id db.blobs)
              (known-size (read_blob id db.blobs) s.same_size) in
          record {
            row = staged_row id size now deadline (read_blob id db.blobs);
            row_read =
                ap (λ (d : Database). read_blob id d.blobs) done
                ∙ read_blob-persist_stage id size now deadline db.blobs;
            row_staged = facts.0;
            row_size = facts.1;
            row_deadline = facts.2;
            after = after;
            after_read = ap (λ (d : Database). d.state) done ∙ read;
            used =
                used
                ∙ ap (λ (r : ℕ). st.storage_used_bytes + r)
                    (staged-room db id size now deadline st is delta (sym decided));
            file_fits = s.file_fits;
            within_quota = quota after used s.quota_kept;
          }
    ]
  where
    known-size :
        (known : Option Blob)
        → ((b : ExistingBlob) → Option.map existing_blob known ≡ some b → b.size_bytes ≡ size)
        → (b : Blob) → known ≡ some b
        → b.size_bytes ≡ size
    known-size known h b is = h (existing_blob b) (ap (Option.map existing_blob) is)

    quota :
        (after : CoordinatorState)
        → after.storage_used_bytes ≡ st.storage_used_bytes + delta
        → (st.storage_limit_bytes ≡ 0)
          ⊎ (st.storage_used_bytes + delta ≤ st.storage_limit_bytes)
          ⊎ (is_some (Option.map existing_blob (read_blob id db.blobs)) ≡ true)
        → (st.storage_limit_bytes ≡ 0)
          ⊎ (after.storage_used_bytes ≤ st.storage_limit_bytes)
          ⊎ (is_some (read_blob id db.blobs) ≡ true)
    quota after used (inl free) = inl free
    quota after used (inr (inl low)) = inr (inl (omega arith))
    quota after used (inr (inr known)) =
        inr (inr (sym (is_some-map existing_blob (read_blob id db.blobs)) ∙ known))
