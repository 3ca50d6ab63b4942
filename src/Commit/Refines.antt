-- ===== src/Commit/Refines.antt =====
-- The commit transaction implements the batch of the specification.
use synch_api.Prelude.{
  ℕ, ◌+◌, ◌≡◌, ◌≢◌, inl, inr, refl, sym, ap, ◌∙◌, subst, String, Bool, true, false, append-nil,
  append-snoc, Option, none, some, List, [], ◌∷◌, ◌++◌, if◌then◌else◌, truthy, same, same?, trim,
  arith, or_else, Bool-cases,
}
use mathlib.Core.Option
use mathlib.Core.Path.{subst₂}
use synch_api.Policy.Entry.{
  is_delete, EntryChange, MutationDecision, decide_entry_mutation, apply, idempotent,
  stale_revision, same?-ne, CaptureReason,
}
use synch_api.Store.Rows.{Entry, Database, CoordinatorState, ok, first_step}
use synch_api.Store.Entries.{read_entry, read_entry-upsert_entry, revision_in}
use synch_api.Store.Versions.{contains, add_distinct}
use synch_api.Store.State.{current_cursor}
use synch_api.Commit.Batch.{
  Context, Mutation, Batch, BatchResult, accepted, rejected, RejectionCode, blob_not_found,
  blob_not_staged, duplicate_mutation_id, stale, Committed, commit_one, commit_all, commit_new,
  follow_decision, apply_change, apply_at, save_auto, save_forced, check_blob, commit_transaction,
  push, start, next_entry, mutation_input, last_cursor, answered_id, answered_entry,
}
use synch_api.Commit.Round.{
  Answered, Applied, Excuse, Excused, Stands, Cases, commit_one-Cases, BlobCheck-cases,
  ok-injective,
}
use synch_api.Commit.Records.{has_blob, IsUsable}
use synch_api.Commit.Loop.{commit_transaction-Runs, finish-saved}
use synch_api.Commit.Cursor.{reached, last_cursor-reached, change-revision, current_cursor-saved}
use synch_api.Commit.Spec.{
  Doc, Sheet, doc_of, view, revision_at, last_at, Same, Reason, written, Serves, ServesAll,
}

-- The ids that the batch has seen after a round.
apply_at-seen :
    (ctx : Context) (mutation_id : String) (m : Mutation) (current : Option Entry)
    (change : EntryChange) (cursor : ℕ) (s : Batch)
    → (apply_at ctx mutation_id m current change cursor s).seen_mutation_ids ≡ s.seen_mutation_ids
unfolding apply_at save_auto
apply_at-seen ctx mutation_id m current change cursor s = ground arith

save_forced-seen :
    (ctx : Context) (m : Mutation) (forced : Option CaptureReason) (current : Option Entry)
    (s : Batch)
    → (save_forced ctx m forced current s).seen_mutation_ids ≡ s.seen_mutation_ids
unfolding save_forced
save_forced-seen ctx m none current s = refl
save_forced-seen ctx m (some r) none s = refl
save_forced-seen ctx m (some r) (some e) s = refl

apply_change-seen :
    (ctx : Context) (mutation_id : String) (m : Mutation) (current : Option Entry)
    (change : EntryChange) (s s' : Batch)
    → apply_change ctx mutation_id m current change s ≡ ok s'
    → s'.seen_mutation_ids ≡ s.seen_mutation_ids
unfolding apply_change
apply_change-seen ctx mutation_id m current change s s' e =
    elim (BlobCheck-cases (check_blob ctx change.next_blob_id s.db.blobs)) [
      | inl (code, c) ↦
          ap (λ (b : Batch). b.seen_mutation_ids) (ok-injective _ _ (rw (c, apply_change) at e))
      | inr (blobs, c) ↦
          let saved =
            save_forced ctx m change.forced_history_before current
              (record s { db = record s.db { blobs = blobs } }) in
          let (cursor, read, done) =
            first_step (λ (n : ℕ). ok (apply_at ctx mutation_id m current change (n + 1) saved))
              (last_cursor ctx saved) (rw (c, apply_change) at e) in
          ap (λ (b : Batch). b.seen_mutation_ids) (ok-injective _ _ done)
          ∙ apply_at-seen ctx mutation_id m current change (cursor + 1) saved
          ∙ save_forced-seen ctx m change.forced_history_before current
              (record s { db = record s.db { blobs = blobs } })
    ]

follow_decision-seen :
    (ctx : Context) (mutation_id : String) (m : Mutation) (current : Option Entry)
    (d : MutationDecision) (s s' : Batch)
    → follow_decision ctx mutation_id m current d s ≡ ok s'
    → s'.seen_mutation_ids ≡ s.seen_mutation_ids
unfolding follow_decision
follow_decision-seen ctx mutation_id m none idempotent s s' e = cc
follow_decision-seen ctx mutation_id m (some row) idempotent s s' e =
    ap (λ (b : Batch). b.seen_mutation_ids) (ok-injective _ _ e)
follow_decision-seen ctx mutation_id m current (stale_revision expected received) s s' e =
    ap (λ (b : Batch). b.seen_mutation_ids) (ok-injective _ _ e)
follow_decision-seen ctx mutation_id m current (apply change) s s' e =
    apply_change-seen ctx mutation_id m current change s s' e

commit_one-seen :
    (ctx : Context) (m : Mutation) (s s' : Batch)
    → commit_one ctx m s ≡ ok s'
    → s'.seen_mutation_ids ≡ add_distinct (trim m.mutation_id) s.seen_mutation_ids
unfolding commit_one commit_new
commit_one-seen ctx m s s' e =
    elim (Bool-cases (contains (trim m.mutation_id) s.seen_mutation_ids)) [
      | inl again ↦
          rw again (
            ap (λ (b : Batch). b.seen_mutation_ids)
              (ok-injective _ _ (rw (again, commit_one) at e)))
      | inr new ↦ rw new (
          follow_decision-seen ctx (trim m.mutation_id) m _ _
            (record s { seen_mutation_ids = s.seen_mutation_ids ++ trim m.mutation_id ∷ [] }) s'
            (rw (new, commit_one) at e))
    ]

revision_at-doc_of : (row : Option Entry) → revision_at (Option.map doc_of row) ≡ revision_in row
revision_at-doc_of none = refl
revision_at-doc_of (some e) = refl

Excuse-Reason :
    (ctx : Context) (m : Mutation) (seen : List String) (db : Database) (cursor : ℕ)
    (code : RejectionCode)
    → Excuse ctx m seen db code
    → Reason m ctx.unavailable_blob_ids seen (view cursor db) code
Excuse-Reason ctx m seen db cursor duplicate_mutation_id h = h
Excuse-Reason ctx m seen db cursor (stale expected received) (e, r, differ) =
    (e ∙ sym (revision_at-doc_of (read_entry m.entry_id db.entries)), r, differ)
Excuse-Reason ctx m seen db cursor blob_not_found (id, named, lost) = (id, named, lost)
Excuse-Reason ctx m seen db cursor blob_not_staged (id, named, stored, missing) =
    (id, named, stored, missing)

change_facts :
    (ctx : Context) (m : Mutation) (current : Option Entry) (change : EntryChange)
    → decide_entry_mutation (mutation_input ctx (trim m.mutation_id) m current) ≡ apply change
    → (last_at (Option.map doc_of current) ≢ some (trim m.mutation_id))
      × (change.next_blob_id ≡ (if is_delete m.op then none else m.blob_id))
      × (change.next_deleted ≡ is_delete m.op)
unfolding decide_entry_mutation
change_facts ctx m none change decided = ground arith
change_facts ctx m (some e) change decided =
    elim (Bool-cases (same? e.last_mutation_id (trim m.mutation_id))) [
      | inl again ↦ absurd (ground (arith, again))
      | inr new ↦ (
        same?-ne e.last_mutation_id (trim m.mutation_id) new,
        ground (arith, new),
        ground (arith, new),
      )
    ]

doc-read :
    (id : String) (es : List Entry) {e : Entry}
    → read_entry id es ≡ some e
    → Option.map doc_of (read_entry id es) ≡ some (doc_of e)
doc-read id es found = ap (Option.map doc_of) found

map-if :
    (b : Bool) (row : Entry) (d : Doc) (other : Option Entry)
    → doc_of row ≡ d
    → Option.map doc_of (if b then some row else other)
      ≡ (if b then some d else Option.map doc_of other)
map-if true row d other e = ap some e
map-if false row d other e = refl

module _ (ctx : Context) (st : CoordinatorState) (here : st.vault_id ≡ ctx.session.vault_id) where
  abbrev seen_by : Batch → Sheet
  seen_by s = view (reached ctx st here s) s.db

  Answered-Same :
      (m : Mutation) (s s' : Batch)
      → Answered ctx m s.seen_mutation_ids s s'
      → Same (seen_by s) (seen_by s')
  Answered-Same m s s' a = (
    ap (λ (o : Option ℕ). or_else o st.current_cursor) a.cursor_kept,
    λ id. ap (λ (d : Database). Option.map doc_of (read_entry id d.entries)) a.db_kept,
    λ id. ap (λ (d : Database). has_blob id d.blobs) a.db_kept,
  )

  Answered-Serves :
      (m : Mutation) (s s' : Batch) (a : Answered ctx m s.seen_mutation_ids s s')
      → contains (trim m.mutation_id) s.seen_mutation_ids ≡ false
      → Serves m ctx.unavailable_blob_ids s.seen_mutation_ids (seen_by s) a.said.answer (seen_by s')
  Answered-Serves m s s' a new =
      by_answer a.said.answer a.said.named a.said.of_entry
        (subst (λ (d : Database). Stands a.said.answer (read_entry m.entry_id d.entries)) a.db_kept
          a.said.stands)
        a.excused
    where
      by_answer :
          (answer : BatchResult)
          → answered_id answer ≡ trim m.mutation_id
          → answered_entry answer ≡ m.entry_id
          → Stands answer (read_entry m.entry_id s.db.entries)
          → Excused ctx m s.seen_mutation_ids s.db answer
          → Serves m ctx.unavailable_blob_ids s.seen_mutation_ids (seen_by s) answer (seen_by s')
      by_answer (accepted mutation_id cursor entry_id revision) named of_entry
            (e, found, last, at, rev, is) excused =
          inr (
            new,
            inl (
              doc_of e,
              doc-read m.entry_id s.db.entries found,
              last ∙ ap some named,
              cc (named, of_entry, at, rev),
              Answered-Same m s s' a,
            ),
          )
      by_answer (rejected mutation_id entry_id code) named of_entry stands excused = inl (
        code,
        Excuse-Reason ctx m s.seen_mutation_ids s.db (reached ctx st here s) code excused,
        cc (named, of_entry),
        Answered-Same m s s' a,
      )

  -- A mutation that the batch has held before.
  duplicate-Serves :
      (m : Mutation) (s s' : Batch)
      → contains (trim m.mutation_id) s.seen_mutation_ids ≡ true
      → s' ≡ push (rejected (trim m.mutation_id) m.entry_id duplicate_mutation_id) s
      → Serves m ctx.unavailable_blob_ids s.seen_mutation_ids
          (seen_by s)
          (rejected (trim m.mutation_id) m.entry_id duplicate_mutation_id)
          (seen_by s')
  duplicate-Serves m s s' again done = inl (
    duplicate_mutation_id,
    again,
    refl,
    (
      ap (λ (b : Batch). or_else b.next_cursor st.current_cursor) done,
      λ id. ap (λ (b : Batch). Option.map doc_of (read_entry id b.db.entries)) done,
      λ id. ap (λ (b : Batch). has_blob id b.db.blobs) done,
    ),
  )

  reached-next :
      (m : Mutation) (s s' : Batch) (a : Applied ctx m s s') → reached ctx st here s' ≡ a.cursor + 1
  reached-next m s s' a = ap (λ (o : Option ℕ). or_else o st.current_cursor) a.cursor_taken

  cursor-reached :
      (m : Mutation) (s s' : Batch) (a : Applied ctx m s s')
      → s.db.state ≡ some st
      → a.cursor ≡ reached ctx st here s
  cursor-reached m s s' a fixed =
      number-injective _ _ (sym a.read ∙ last_cursor-reached ctx st here s fixed)
    where
      number-injective : (i j : ℕ) → ok i ≡ ok j → i ≡ j
      number-injective i j e = cc

  doc-written :
      (m : Mutation) (s s' : Batch) (a : Applied ctx m s s') (n : ℕ)
      → a.cursor ≡ n
      → doc_of (next_entry ctx (trim m.mutation_id) m a.change (a.cursor + 1)) ≡ written m (n + 1)
  doc-written m s s' a n at =
      let (new, blob, deleted) =
        change_facts ctx m (read_entry m.entry_id s.db.entries) a.change a.decided in
      let (next, base) =
        change-revision ctx (trim m.mutation_id) m (read_entry m.entry_id s.db.entries) a.change
          a.decided in
      cc (next, base, blob, deleted, at)

  Applied-Serves :
      (m : Mutation) (s s' : Batch) (a : Applied ctx m s s')
      → s.db.state ≡ some st
      → contains (trim m.mutation_id) s.seen_mutation_ids ≡ false
      → Serves m ctx.unavailable_blob_ids s.seen_mutation_ids (seen_by s) a.said.answer (seen_by s')
  Applied-Serves m s s' a fixed new =
      let row = read_entry m.entry_id s.db.entries in
      let at = cursor-reached m s s' a fixed in
      let (next, base) = change-revision ctx (trim m.mutation_id) m row a.change a.decided in
      inr (
        new,
        inr (
          subst (IsUsable ctx.unavailable_blob_ids (λ id. has_blob id s.db.blobs))
              (ap truthy (change_facts ctx m row a.change a.decided).1) a.usable_blob,
          revision_at-doc_of row ∙ base,
          (change_facts ctx m row a.change a.decided).0,
          cc (a.accepted_as, next, base, at),
          cc (reached-next m s s' a, at),
          a.records_kept,
          λ id.
              ap (λ (es : List Entry). Option.map doc_of (read_entry id es)) a.entries_written
              ∙ ap (Option.map doc_of) (read_entry-upsert_entry id _ s.db.entries)
              ∙ map-if (same m.entry_id id) _ _ (read_entry id s.db.entries)
                  (doc-written m s s' a (reached ctx st here s) at),
        ),
      )

  -- The answers that the rounds of a batch add, with what they did.
  record Served (ms : List Mutation) (s s' : Batch) : Type 0 where
    answers : List BatchResult
    added : s'.results ≡ s.results ++ answers
    state_kept : s'.db.state ≡ some st
    serves :
        ServesAll ms ctx.unavailable_blob_ids s.seen_mutation_ids (seen_by s) answers (seen_by s')

  Served-step :
      (m : Mutation) (ms : List Mutation) (s t s' : Batch) (answer : BatchResult)
      → t.results ≡ s.results ++ answer ∷ []
      → Serves m ctx.unavailable_blob_ids s.seen_mutation_ids (seen_by s) answer (seen_by t)
      → t.seen_mutation_ids ≡ add_distinct (trim m.mutation_id) s.seen_mutation_ids
      → Served ms t s'
      → Served (m ∷ ms) s s'
  Served-step m ms s t s' answer added one seen rest = record {
    answers = answer ∷ rest.answers;
    added =
        rest.added
        ∙ ap (λ (rs : List BatchResult). rs ++ rest.answers) added
        ∙ append-snoc s.results answer rest.answers;
    state_kept = rest.state_kept;
    serves = (
      seen_by t,
      one,
      subst
          (λ (ids : List String).
            ServesAll ms ctx.unavailable_blob_ids ids (seen_by t) rest.answers (seen_by s'))
          seen rest.serves,
    );
  }

  commit_all-Served :
      (ms : List Mutation) (s s' : Batch)
      → commit_all ctx ms s ≡ ok s'
      → s.db.state ≡ some st
      → Served ms s s'
  unfolding commit_all commit_one
  commit_all-Served [] s s' e fixed = subst (Served [] s) (sym (ok-injective s s' e)) (record {
    answers = [];
    added = sym (append-nil s.results);
    state_kept = fixed;
    serves = (refl, λ id. refl, λ id. refl);
  })
  commit_all-Served (m ∷ ms) s s' e fixed =
      let (t, first, rest) = first_step (commit_all ctx ms) (commit_one ctx m s) e in
      let seen = commit_one-seen ctx m s t first in
      let go = λ (kept : t.db.state ≡ some st). commit_all-Served ms t s' rest kept in
      elim (Bool-cases (contains (trim m.mutation_id) s.seen_mutation_ids)) [
        | inl again ↦ held t again seen go (ok-injective _ _ (rw (again, commit_one) at first))
        | inr new ↦ round t new seen go (commit_one-Cases ctx m s t first)
      ]
    where
      held :
          (t : Batch)
          → contains (trim m.mutation_id) s.seen_mutation_ids ≡ true
          → t.seen_mutation_ids ≡ add_distinct (trim m.mutation_id) s.seen_mutation_ids
          → (t.db.state ≡ some st → Served ms t s')
          → t ≡ push (rejected (trim m.mutation_id) m.entry_id duplicate_mutation_id) s
          → Served (m ∷ ms) s s'
      held t again seen rest done =
          Served-step m ms s t s' _ (ap (λ (b : Batch). b.results) done)
            (duplicate-Serves m s t again done) seen
            (rest (ap (λ (b : Batch). b.db.state) done ∙ fixed))

      round :
          (t : Batch)
          → contains (trim m.mutation_id) s.seen_mutation_ids ≡ false
          → t.seen_mutation_ids ≡ add_distinct (trim m.mutation_id) s.seen_mutation_ids
          → (t.db.state ≡ some st → Served ms t s')
          → Cases ctx m s.seen_mutation_ids s t
          → Served (m ∷ ms) s s'
      round t new seen rest (inl a) =
          Served-step m ms s t s' a.said.answer a.said.added (Answered-Serves m s t a new) seen
            (rest (ap (λ (d : Database). d.state) a.db_kept ∙ fixed))
      round t new seen rest (inr a) =
          Served-step m ms s t s' a.said.answer a.said.added (Applied-Serves m s t a fixed new) seen
            (rest (a.state_kept ∙ fixed))

-- A commit that succeeds on the session's vault serves the batch as the specification says: with
-- the rows before and after seen as documents under the vault's cursor, and the blobs that have a
-- record, its answers are those of the mutations served one after the other.
pub commit_transaction-Refines :
    (ctx : Context) (ms : List Mutation) (db db' : Database) (c : Committed) (st : CoordinatorState)
    → db.state ≡ some st
    → st.vault_id ≡ ctx.session.vault_id
    → commit_transaction ctx ms db ≡ ok (db', c)
    → (cursor : ℕ) × (current_cursor db'.state ≡ ok cursor)
      × ServesAll ms ctx.unavailable_blob_ids []
          (view st.current_cursor db)
          c.results
          (view cursor db')
commit_transaction-Refines ctx ms db db' c st is here e =
    let r = commit_transaction-Runs ctx ms db db' c e in
    let (saved, said, told) = finish-saved ctx r.last db' c r.finished in
    let served = commit_all-Served ctx st here ms (start db) r.last r.looped is in
    (
      reached ctx st here r.last,
      ap (λ (d : Database). current_cursor d.state) saved
          ∙ current_cursor-saved ctx st r.last served.state_kept,
      subst₂
          (λ (rs : List BatchResult) (d : Database).
            ServesAll ms ctx.unavailable_blob_ids [] (view st.current_cursor db) rs
              (view (reached ctx st here r.last) d))
          (sym (said ∙ served.added)) (sym saved) served.serves,
    )
