-- ===== src/Commit/Round.antt =====
-- One round of the commit loop, seen from outside: it answers and leaves the database alone, or it
-- writes one new revision.
use synch_api.Prelude.{
  ℕ, ◌+◌, ◌≡◌, ◌⊎◌, refl, String, Bool, Option, none, some, List, [], ◌∷◌, ◌++◌, arith,
  if◌then◌else◌, max, or_else, truthy, trim, Bool-cases, Option-cases, inl, inr, sym, ◌∙◌, ap,
  same_self, true, ◌≢◌, false, is_some,
}
use synch_api.Policy.Entry.{
  CaptureReason, EntryChange, MutationDecision, idempotent, stale_revision, apply,
  decide_entry_mutation, same?→some,
}
use synch_api.Store.Rows.{Entry, Blob, ok, first_step, Database}
use synch_api.Store.Entries.{
  read_entry, upsert_entry, read_entry-upsert_entry, read_entry-id, revision_in,
}
use synch_api.Store.Versions.{contains}
use synch_api.Store.Blobs.{read_blob}
use mathlib.Core.Path.{ap₂, subst₂, sym, ap, subst}
use synch_api.Store.State.{State}
use synch_api.Store.Sizes.{total_size}
use synch_api.Store.Liveness.{AllLive}
use synch_api.Commit.Records.{
  has_blob, named_blob, IsUsable, check_named-has_blob, check_named-IsUsable, apply_at-has_blob,
}
use synch_api.Commit.Live.{
  check_named-HasRecord, check_blob-AllLive, apply_at-AllLive, HasRecord, apply_at-total_size,
  check_blob-total_size,
}
use synch_api.Commit.Batch.{
  Context, Mutation, Batch, BatchResult, accepted, rejected, BlobCheck, refused, usable, check_blob,
  write_entry, next_entry, apply_at, save_auto, save_forced, apply_change, follow_decision,
  mutation_input, commit_new, commit_one, last_cursor, read_cursor, push, RejectionCode, repeat,
  stale, duplicate_mutation_id, answered_id, answered_entry, check_named, blob_not_found,
  blob_not_staged,
}

-- What an answer says of the row that its entry has then: an accepted mutation is the row's last
-- one, with the cursor and the revision of the answer.
abbrev pub Stands : BatchResult → Option Entry → Type 0
Stands (accepted mutation_id cursor entry_id revision) row =
    (e : Entry) × (row ≡ some e)
    × (e.last_mutation_id ≡ some mutation_id)
    × (e.updated_seq ≡ cursor)
    × (e.revision ≡ revision)
    × (e.entry_id ≡ entry_id)
Stands (rejected mutation_id entry_id code) row = Unit

-- Why a mutation is refused: its id came before in the batch, its base is not the row's revision, or
-- the blob that it names is not in the object store or has no record.
abbrev pub Excuse : Context → Mutation → List String → Database → RejectionCode → Type 0
Excuse ctx m seen db duplicate_mutation_id = contains (trim m.mutation_id) seen ≡ true
Excuse ctx m seen db (stale expected received) =
    (expected ≡ revision_in (read_entry m.entry_id db.entries))
    × (received ≡ m.base_revision)
    × (expected ≢ received)
Excuse ctx m seen db blob_not_found =
    (id : String) × (named_blob m ≡ some id) × (contains id ctx.unavailable_blob_ids ≡ true)
Excuse ctx m seen db blob_not_staged =
    (id : String) × (named_blob m ≡ some id)
    × (contains id ctx.unavailable_blob_ids ≡ false)
    × (has_blob id db.blobs ≡ false)

abbrev pub Excused : Context → Mutation → List String → Database → BatchResult → Type 0
Excused ctx m seen db (accepted mutation_id cursor entry_id revision) = Unit
Excused ctx m seen db (rejected mutation_id entry_id code) = Excuse ctx m seen db code

-- The one answer that a round adds.
pub record Said (m : Mutation) (s s' : Batch) : Type 0 where
  pub answer : BatchResult
  pub added : s'.results ≡ s.results ++ answer ∷ []
  pub named : answered_id answer ≡ trim m.mutation_id
  pub of_entry : answered_entry answer ≡ m.entry_id
  pub stands : Stands answer (read_entry m.entry_id s'.db.entries)

pub record Answered (ctx : Context) (m : Mutation) (seen : List String) (s s' : Batch)
    : Type 0 where
  pub db_kept : s'.db ≡ s.db
  pub cursor_kept : s'.next_cursor ≡ s.next_cursor
  pub broadcast_kept : s'.highest_broadcast_cursor ≡ s.highest_broadcast_cursor
  pub said : Said m s s'
  pub excused : Excused ctx m seen s.db said.answer

pub record Applied (ctx : Context) (m : Mutation) (s s' : Batch) : Type 0 where
  pub cursor : ℕ
  pub change : EntryChange
  pub read : last_cursor ctx s ≡ ok cursor
  pub decided :
      decide_entry_mutation
        (mutation_input ctx (trim m.mutation_id) m (read_entry m.entry_id s.db.entries))
      ≡ apply change
  pub entries_written :
      s'.db.entries
      ≡ upsert_entry (next_entry ctx (trim m.mutation_id) m change (cursor + 1)) s.db.entries
  pub state_kept : s'.db.state ≡ s.db.state
  pub cursor_taken : s'.next_cursor ≡ some (cursor + 1)
  pub broadcast_raised :
      s'.highest_broadcast_cursor ≡ some (max (or_else s.highest_broadcast_cursor 0) (cursor + 1))
  pub stays_live : AllLive s.db.entries s.db.blobs → AllLive s'.db.entries s'.db.blobs
  pub size_kept : total_size s'.db.blobs ≡ total_size s.db.blobs
  pub usable_blob :
      IsUsable ctx.unavailable_blob_ids (λ id. has_blob id s.db.blobs) (truthy change.next_blob_id)
  pub records_kept : (id : String) → has_blob id s'.db.blobs ≡ has_blob id s.db.blobs
  pub said : Said m s s'
  pub accepted_as :
      said.answer ≡ accepted (trim m.mutation_id) (cursor + 1) m.entry_id change.revision

-- Saving a version touches neither the tables of entries and blobs nor the cursor: `t` is `s` with
-- another blob table, as far as a round goes.
record Unmoved (blobs : List Blob) (s t : Batch) : Type 0 where
  entries_kept : t.db.entries ≡ s.db.entries
  blobs_set : t.db.blobs ≡ blobs
  state_kept : t.db.state ≡ s.db.state
  next_kept : t.next_cursor ≡ s.next_cursor
  broadcast_kept : t.highest_broadcast_cursor ≡ s.highest_broadcast_cursor
  results_kept : t.results ≡ s.results

save_forced-Unmoved :
    (ctx : Context) (m : Mutation) (forced : Option CaptureReason) (current : Option Entry)
    (blobs : List Blob) (s : Batch)
    → Unmoved blobs s
        (save_forced ctx m forced current (record s { db = record s.db { blobs = blobs } }))
unfolding save_forced
save_forced-Unmoved ctx m none current blobs s = ground arith
save_forced-Unmoved ctx m (some r) none blobs s = ground arith
save_forced-Unmoved ctx m (some r) (some e) blobs s = ground arith

apply_at-facts :
    (ctx : Context) (mutation_id : String) (m : Mutation) (current : Option Entry)
    (change : EntryChange) (cursor : ℕ) (s : Batch)
    → ((apply_at ctx mutation_id m current change cursor s).db.entries
        ≡ upsert_entry (next_entry ctx mutation_id m change cursor) s.db.entries)
      × ((apply_at ctx mutation_id m current change cursor s).db.state ≡ s.db.state)
      × ((apply_at ctx mutation_id m current change cursor s).next_cursor ≡ some cursor)
      × ((apply_at ctx mutation_id m current change cursor s).highest_broadcast_cursor
          ≡ some (max (or_else s.highest_broadcast_cursor 0) cursor))
      × ((apply_at ctx mutation_id m current change cursor s).results
          ≡ s.results ++ accepted mutation_id cursor m.entry_id change.revision ∷ [])
unfolding apply_at save_auto write_entry
apply_at-facts ctx mutation_id m current change cursor s = ground arith

last_cursor-Unmoved :
    (ctx : Context) (blobs : List Blob) (s t : Batch)
    → Unmoved blobs s t
    → last_cursor ctx t ≡ last_cursor ctx s
last_cursor-Unmoved ctx blobs s t u =
    ap₂
      (λ (state : State) (next : Option ℕ). elim next [
        | none ↦ read_cursor ctx state
        | some c ↦ ok c
      ])
      u.state_kept u.next_kept

module _ (ctx : Context) (m : Mutation) (change : EntryChange) (s t s' : Batch)
    (decided : decide_entry_mutation
        (mutation_input ctx (trim m.mutation_id) m (read_entry m.entry_id s.db.entries))
      ≡ apply change)
    (blobs : List Blob) (checked : check_blob ctx change.next_blob_id s.db.blobs ≡ usable blobs)
    (u : Unmoved blobs s t) where
  apply_at-Applied :
      (current : Option Entry) (cursor : ℕ)
      → last_cursor ctx t ≡ ok cursor
      → s' ≡ apply_at ctx (trim m.mutation_id) m current change (cursor + 1) t
      → Applied ctx m s s'
  apply_at-Applied current cursor read done =
      let f = apply_at-facts ctx (trim m.mutation_id) m current change (cursor + 1) t in
      let live = apply_at-AllLive ctx (trim m.mutation_id) m current change (cursor + 1) t in
      record {
        cursor = cursor;
        change = change;
        read = sym (last_cursor-Unmoved ctx blobs s t u) ∙ read;
        decided = decided;
        entries_written = cc (f.0, u.entries_kept);
        state_kept = cc (f.1, u.state_kept);
        cursor_taken = cc (f.2);
        broadcast_raised = cc (f.3, u.broadcast_kept);
        said = record {
          answer = accepted (trim m.mutation_id) (cursor + 1) m.entry_id change.revision;
          added = cc (f.4, u.results_kept);
          named = refl;
          of_entry = refl;
          stands = (
            next_entry ctx (trim m.mutation_id) m change (cursor + 1),
            ap (λ (b : Batch). read_entry m.entry_id b.db.entries) done
                ∙ ap (read_entry m.entry_id) f.0
                ∙ read_entry-upsert_entry m.entry_id
                    (next_entry ctx (trim m.mutation_id) m change (cursor + 1)) t.db.entries
                ∙ ap
                    (λ (b : Bool).
                      if b
                      then some (next_entry ctx (trim m.mutation_id) m change (cursor + 1))
                      else read_entry m.entry_id t.db.entries)
                    (same_self m.entry_id),
            refl,
            refl,
            refl,
            refl,
          );
        };
        accepted_as = refl;
        usable_blob =
            check_named-IsUsable ctx (truthy change.next_blob_id) s.db.blobs blobs checked;
        records_kept = λ id.
            ap (λ (b : Batch). has_blob id b.db.blobs) done
            ∙ apply_at-has_blob ctx (trim m.mutation_id) m current change (cursor + 1) t id
            ∙ ap (has_blob id) u.blobs_set
            ∙ check_named-has_blob ctx (truthy change.next_blob_id) s.db.blobs blobs id checked;
        size_kept =
            ap (λ (b : Batch). total_size b.db.blobs) done
            ∙ apply_at-total_size ctx (trim m.mutation_id) m current change (cursor + 1) t
            ∙ ap total_size u.blobs_set
            ∙ check_blob-total_size ctx change.next_blob_id s.db.blobs blobs checked;
        stays_live = λ h.
            subst (λ (b : Batch). AllLive b.db.entries b.db.blobs) (sym done)
              (live
                (subst (HasRecord (truthy change.next_blob_id)) (sym u.blobs_set)
                  (check_named-HasRecord ctx (truthy change.next_blob_id) s.db.blobs blobs checked))
                (subst₂ AllLive (sym u.entries_kept) (sym u.blobs_set) (
                  check_blob-AllLive ctx change.next_blob_id s.db.entries s.db.blobs blobs checked
                    h)));
      }

abbrev pub Cases : Context → Mutation → List String → Batch → Batch → Type 0
Cases ctx m seen s s' = Answered ctx m seen s s' ⊎ Applied ctx m s s'

module _ (ctx : Context) (m : Mutation) (seen : List String) where
  push-Answered :
      (code : RejectionCode) (s s' : Batch)
      → Excuse ctx m seen s.db code
      → s' ≡ push (rejected (trim m.mutation_id) m.entry_id code) s
      → Answered ctx m seen s s'
  push-Answered code s s' why e = record {
    db_kept = ap (λ (b : Batch). b.db) e;
    cursor_kept = ap (λ (b : Batch). b.next_cursor) e;
    broadcast_kept = ap (λ (b : Batch). b.highest_broadcast_cursor) e;
    said = record {
      answer = rejected (trim m.mutation_id) m.entry_id code;
      added = ap (λ (b : Batch). b.results) e;
      named = refl;
      of_entry = refl;
      stands = tt;
    };
    excused = why;
  }

  -- A change to apply names the mutation's blob, or none.
  next_blob-named :
      (current : Option Entry) (change : EntryChange) (id : String)
      → decide_entry_mutation (mutation_input ctx (trim m.mutation_id) m current) ≡ apply change
      → truthy change.next_blob_id ≡ some id
      → named_blob m ≡ some id
  unfolding decide_entry_mutation
  next_blob-named current change id decided named = ground arith

  check_named-Excuse :
      (o : Option String) (db : Database) (code : RejectionCode)
      → ((id : String) → o ≡ some id → named_blob m ≡ some id)
      → check_named ctx o db.blobs ≡ refused code
      → Excuse ctx m seen db code
  unfolding check_named
  check_named-Excuse none db code named h = cc
  check_named-Excuse (some id) db code named h =
      elim (Bool-cases (contains id ctx.unavailable_blob_ids)) [
        | inl lost ↦
            subst (Excuse ctx m seen db) {x = blob_not_found} (ground arith)
              (id, named id refl, lost)
        | inr stored ↦ elim (Option-cases (read_blob id db.blobs)) [
          | inl missing ↦
              subst (Excuse ctx m seen db) {x = blob_not_staged} (ground arith)
                (id, named id refl, stored, ap is_some missing)
          | inr (b, found) ↦ absurd (ground arith)
        ]
      ]

  check_blob-Excuse :
      (change : EntryChange) (s : Batch) (code : RejectionCode)
      → decide_entry_mutation
          (mutation_input ctx (trim m.mutation_id) m (read_entry m.entry_id s.db.entries))
        ≡ apply change
      → check_blob ctx change.next_blob_id s.db.blobs ≡ refused code
      → Excuse ctx m seen s.db code
  check_blob-Excuse change s code decided h =
      check_named-Excuse (truthy change.next_blob_id) s.db code
        (λ id. next_blob-named (read_entry m.entry_id s.db.entries) change id decided) h

pub BlobCheck-cases :
    (c : BlobCheck)
    → ((code : RejectionCode) × (c ≡ refused code)) ⊎ ((blobs : List Blob) × (c ≡ usable blobs))
BlobCheck-cases (refused code) = inl (code, refl)
BlobCheck-cases (usable blobs) = inr (blobs, refl)

pub ok-injective : (s t : Batch) → ok s ≡ ok t → t ≡ s
ok-injective s t e = cc

apply_change-Cases :
    (ctx : Context) (m : Mutation) (seen : List String) (change : EntryChange) (s s' : Batch)
    → decide_entry_mutation
        (mutation_input ctx (trim m.mutation_id) m (read_entry m.entry_id s.db.entries))
      ≡ apply change
    → apply_change ctx (trim m.mutation_id) m (read_entry m.entry_id s.db.entries) change s ≡ ok s'
    → Cases ctx m seen s s'
unfolding apply_change
apply_change-Cases ctx m seen change s s' decided h =
    elim (BlobCheck-cases (check_blob ctx change.next_blob_id s.db.blobs)) [
      | inl (code, e) ↦ inl (
          push-Answered ctx m seen code s s' (check_blob-Excuse ctx m seen change s code decided e)
            (ok-injective _ _ (rw (e, apply_change) at h)))
      | inr (blobs, e) ↦
          let current = read_entry m.entry_id s.db.entries in
          let u = save_forced-Unmoved ctx m change.forced_history_before current blobs s in
          let (cursor, read, done) = first_step _ _ (rw (e, apply_change) at h) in
          inr (
            apply_at-Applied ctx m change s _ s' decided blobs e u current cursor read
              (ok-injective _ _ done))
    ]

repeat-Answered :
    (ctx : Context) (m : Mutation) (seen : List String) (e : Entry) (s s' : Batch)
    → read_entry m.entry_id s.db.entries ≡ some e
    → e.last_mutation_id ≡ some (trim m.mutation_id)
    → s' ≡ repeat (trim m.mutation_id) e s
    → Answered ctx m seen s s'
repeat-Answered ctx m seen e s s' found last h = record {
  db_kept = ap (λ (b : Batch). b.db) h;
  cursor_kept = ap (λ (b : Batch). b.next_cursor) h;
  broadcast_kept = ap (λ (b : Batch). b.highest_broadcast_cursor) h;
  said = record {
    answer = accepted (trim m.mutation_id) e.updated_seq e.entry_id e.revision;
    added = ap (λ (b : Batch). b.results) h;
    named = refl;
    of_entry = read_entry-id m.entry_id s.db.entries found;
    stands = (
      e,
      ap (λ (b : Batch). read_entry m.entry_id b.db.entries) h ∙ found,
      last,
      refl,
      refl,
      refl,
    );
  };
  excused = tt;
}

stale-Excuse :
    (ctx : Context) (m : Mutation) (current : Option Entry) (expected received : ℕ)
    → decide_entry_mutation (mutation_input ctx (trim m.mutation_id) m current)
      ≡ stale_revision expected received
    → (expected ≡ revision_in current) × (received ≡ m.base_revision) × (expected ≢ received)
unfolding decide_entry_mutation
stale-Excuse ctx m none expected received decided = ground arith
stale-Excuse ctx m (some e) expected received decided = ground arith

-- The decision to repeat an answer is taken on the row's last mutation.
repeated-last :
    (ctx : Context) (mutation_id : String) (m : Mutation) (e : Entry)
    → decide_entry_mutation (mutation_input ctx mutation_id m (some e)) ≡ idempotent
    → e.last_mutation_id ≡ some mutation_id
unfolding decide_entry_mutation
repeated-last ctx mutation_id m e decided =
    ground (arith, same?→some e.last_mutation_id mutation_id)

follow_decision-Cases :
    (ctx : Context) (m : Mutation) (seen : List String) (d : MutationDecision) (s s' : Batch)
    → decide_entry_mutation
        (mutation_input ctx (trim m.mutation_id) m (read_entry m.entry_id s.db.entries))
      ≡ d
    → follow_decision ctx (trim m.mutation_id) m (read_entry m.entry_id s.db.entries) d s ≡ ok s'
    → Cases ctx m seen s s'
unfolding follow_decision
follow_decision-Cases ctx m seen idempotent s s' decided h =
    elim (Option-cases (read_entry m.entry_id s.db.entries)) [
      | inl missing ↦ absurd (ground arith)
      | inr (e, found) ↦ inl (
          repeat-Answered ctx m seen e s s' found
            (repeated-last ctx (trim m.mutation_id) m e (rw found at decided))
            (ok-injective _ _ (rw (found, follow_decision) at h)))
    ]
follow_decision-Cases ctx m seen (stale_revision expected received) s s' decided h = inl (
    push-Answered ctx m seen (stale expected received) s s'
      (stale-Excuse ctx m (read_entry m.entry_id s.db.entries) expected received decided)
      (ok-injective _ _ h))
follow_decision-Cases ctx m seen (apply change) s s' decided h =
    apply_change-Cases ctx m seen change s s' decided h

-- What a round of the loop may do.
pub commit_one-Cases :
    (ctx : Context) (m : Mutation) (s s' : Batch)
    → commit_one ctx m s ≡ ok s'
    → Cases ctx m s.seen_mutation_ids s s'
unfolding commit_one commit_new
commit_one-Cases ctx m s s' h =
    elim (Bool-cases (contains (trim m.mutation_id) s.seen_mutation_ids)) [
      | inl again ↦ inl (
          push-Answered ctx m s.seen_mutation_ids duplicate_mutation_id s s' again
            (ok-injective _ _ (rw (again, commit_one) at h)))
      | inr new ↦ from_seen (
          follow_decision-Cases ctx m s.seen_mutation_ids _
            (record s { seen_mutation_ids = s.seen_mutation_ids ++ trim m.mutation_id ∷ [] }) s'
            refl (rw (new, commit_one) at h))
    ]
  where
    from_seen :
        Cases ctx m s.seen_mutation_ids
          (record s { seen_mutation_ids = s.seen_mutation_ids ++ trim m.mutation_id ∷ [] })
          s'
        → Cases ctx m s.seen_mutation_ids s s'
    from_seen (inl a) = inl (record {
      db_kept = a.db_kept;
      excused = a.excused;
      cursor_kept = a.cursor_kept;
      broadcast_kept = a.broadcast_kept;
      said = record {
        answer = a.said.answer;
        added = a.said.added;
        named = a.said.named;
        of_entry = a.said.of_entry;
        stands = a.said.stands;
      };
    })
    from_seen (inr a) = inr (record {
      cursor = a.cursor;
      change = a.change;
      read = a.read;
      decided = a.decided;
      entries_written = a.entries_written;
      state_kept = a.state_kept;
      cursor_taken = a.cursor_taken;
      broadcast_raised = a.broadcast_raised;
      stays_live = a.stays_live;
      size_kept = a.size_kept;
      usable_blob = a.usable_blob;
      records_kept = a.records_kept;
      accepted_as = a.accepted_as;
      said = record {
        answer = a.said.answer;
        added = a.said.added;
        named = a.said.named;
        of_entry = a.said.of_entry;
        stands = a.said.stands;
      };
    })
