-- ===== src/Commit/Total.antt =====
-- A commit on the session's own vault answers every mutation, in order, and never fails.
use mathlib.Core.List.{append_assoc, append-nil, map-append}
use synch_api.Prelude.{
  ℕ, ◌+◌, ◌≡◌, inl, inr, refl, sym, ap, ◌∙◌, String, Option, none, some, List, [], ◌∷◌, ◌++◌, map,
  arith, Bool-cases, Option-cases, trim, or_else,
}
use synch_api.Policy.Entry.{
  CaptureReason, EntryChange, MutationDecision, idempotent, stale_revision, apply,
  decide_entry_mutation,
}
use synch_api.Store.Rows.{Entry, Database, CoordinatorState, Result, ok}
use synch_api.Store.Entries.{read_entry}
use synch_api.Store.Versions.{contains}
use synch_api.Store.State.{read_sync_pause, read_vault_id, current_cursor, save_commit}
use synch_api.Commit.Batch.{
  answered_id, Context, Mutation, Batch, BatchResult, accepted, rejected, BlobCheck, refused,
  usable, check_blob, save_forced, save_auto, write_entry, apply_at, apply_change, follow_decision,
  mutation_input, commit_new, commit_one, commit_all, commit_transaction, Committed, start, finish,
  last_cursor, stale, duplicate_mutation_id, saved,
}

-- One more answer, to the mutation of that id, and the vault's row as it was.
abbrev Answers : String → Batch → Result Batch → Type 0
Answers mutation_id s r =
    (s' : Batch) × (answer : BatchResult) × (r ≡ ok s')
    × (answered_id answer ≡ mutation_id)
    × (s'.results ≡ s.results ++ answer ∷ [])
    × (s'.db.state ≡ s.db.state)

module _ (ctx : Context) (st : CoordinatorState) (here : st.vault_id ≡ ctx.session.vault_id) where
  last_cursor-ok :
      (s : Batch)
      → s.db.state ≡ some st
      → last_cursor ctx s ≡ ok (or_else s.next_cursor st.current_cursor)
  unfolding read_vault_id current_cursor
  last_cursor-ok s fixed = ground arith

  save_forced-kept :
      (m : Mutation) (forced : Option CaptureReason) (current : Option Entry) (s : Batch)
      → ((save_forced ctx m forced current s).db.state ≡ s.db.state)
        × ((save_forced ctx m forced current s).results ≡ s.results)
  unfolding save_forced
  save_forced-kept m none current s = (refl, refl)
  save_forced-kept m (some r) none s = (refl, refl)
  save_forced-kept m (some r) (some e) s = (refl, refl)

  apply_at-Answers :
      (mutation_id : String) (m : Mutation) (current : Option Entry) (change : EntryChange)
      (cursor : ℕ) (s : Batch)
      → Answers mutation_id s (ok (apply_at ctx mutation_id m current change cursor s))
  unfolding apply_at save_auto write_entry
  apply_at-Answers mutation_id m current change cursor s = (
    _,
    accepted mutation_id cursor m.entry_id change.revision,
    refl,
    refl,
    ground arith,
    ground arith,
  )

  apply_change-Answers :
      (mutation_id : String) (m : Mutation) (current : Option Entry) (change : EntryChange)
      (s : Batch)
      → s.db.state ≡ some st
      → Answers mutation_id s (apply_change ctx mutation_id m current change s)
  unfolding apply_change
  apply_change-Answers mutation_id m current change s fixed =
      go (check_blob ctx change.next_blob_id s.db.blobs) refl
    where
      go :
          (c : BlobCheck)
          → check_blob ctx change.next_blob_id s.db.blobs ≡ c
          → Answers mutation_id s (apply_change ctx mutation_id m current change s)
      go (refused code) e =
          rw (e, apply_change) (_, rejected mutation_id m.entry_id code, refl, refl, refl, refl)
      go (usable blobs) e =
          let t =
            save_forced ctx m change.forced_history_before current
              (record s { db = record s.db { blobs = blobs } }) in
          let k =
            save_forced-kept m change.forced_history_before current
              (record s { db = record s.db { blobs = blobs } }) in
          let (s', answer, is, id, results, state) =
            apply_at-Answers mutation_id m current change
              (or_else t.next_cursor st.current_cursor + 1) t in
          (
            s',
            answer,
            rw (e, apply_change) (rw (last_cursor-ok t (k.0 ∙ fixed)) is),
            id,
            results ∙ ap (λ (rs : List BatchResult). rs ++ answer ∷ []) k.1,
            state ∙ k.0,
          )

  follow_decision-Answers :
      (mutation_id : String) (m : Mutation) (current : Option Entry) (d : MutationDecision)
      (s : Batch)
      → s.db.state ≡ some st
      → decide_entry_mutation (mutation_input ctx mutation_id m current) ≡ d
      → Answers mutation_id s (follow_decision ctx mutation_id m current d s)
  unfolding follow_decision decide_entry_mutation
  follow_decision-Answers mutation_id m none idempotent s fixed decided = absurd (ground arith)
  follow_decision-Answers mutation_id m (some e) idempotent s fixed decided =
      (_, accepted mutation_id e.updated_seq e.entry_id e.revision, refl, refl, refl, refl)
  follow_decision-Answers mutation_id m current (stale_revision expected received) s fixed decided =
      (_, rejected mutation_id m.entry_id (stale expected received), refl, refl, refl, refl)
  follow_decision-Answers mutation_id m current (apply change) s fixed decided =
      apply_change-Answers mutation_id m current change s fixed

  commit_one-Answers :
      (m : Mutation) (s : Batch)
      → s.db.state ≡ some st
      → Answers (trim m.mutation_id) s (commit_one ctx m s)
  unfolding commit_one commit_new
  commit_one-Answers m s fixed =
      elim (Bool-cases (contains (trim m.mutation_id) s.seen_mutation_ids)) [
        | inl again ↦
            rw (again, commit_one)
              (
                _,
                rejected (trim m.mutation_id) m.entry_id duplicate_mutation_id,
                refl,
                refl,
                refl,
                refl,
              )
        | inr new ↦
            rw (new, commit_one)
              (follow_decision-Answers (trim m.mutation_id) m (read_entry m.entry_id s.db.entries) _
                (record s { seen_mutation_ids = s.seen_mutation_ids ++ trim m.mutation_id ∷ [] })
                fixed refl)
      ]

  abbrev AnswersAll : List Mutation → Batch → Result Batch → Type 0
  AnswersAll ms s r =
      (s' : Batch) × (r ≡ ok s')
      × (s'.db.state ≡ s.db.state)
      × (map answered_id s'.results
          ≡ map answered_id s.results ++ map (λ (m : Mutation). trim m.mutation_id) ms)

  commit_all-AnswersAll :
      (ms : List Mutation) (s : Batch)
      → s.db.state ≡ some st
      → AnswersAll ms s (commit_all ctx ms s)
  unfolding commit_all
  commit_all-AnswersAll [] s fixed = (s, refl, refl, sym (append-nil _))
  commit_all-AnswersAll (m ∷ ms) s fixed =
      let (t, answer, is, id, results, state) = commit_one-Answers m s fixed in
      let (s', rest, state', ids) = commit_all-AnswersAll ms t (state ∙ fixed) in
      (s', rw is rest, state' ∙ state, ids ∙ simp (results, map-append, id, append_assoc))

  abbrev answer_at : Batch → ℕ → Committed
  answer_at s cursor = record {
    cursor = cursor;
    results = s.results;
    broadcast_cursor = s.highest_broadcast_cursor;
  }

  finish-ok :
      (s : Batch)
      → s.db.state ≡ some st
      → (cursor : ℕ) × (finish ctx s ≡ ok (saved ctx s, answer_at s cursor))
  unfolding finish read_vault_id current_cursor save_commit
  finish-ok s fixed = elim (Option-cases s.highest_response_cursor) [
    | inl unset ↦ elim (Option-cases s.next_cursor) [
      | inl idle ↦ (st.current_cursor, ground arith)
      | inr (n, taken) ↦ (n, ground arith)
    ]
    | inr (n, is) ↦ (n, ground arith)
  ]

-- On a vault that is the session's and is not paused a commit succeeds, whatever it is sent, and
-- its results are one for each mutation, in the order of the batch and under the trimmed ids.
pub commit_transaction-answers :
    (ctx : Context) (ms : List Mutation) (db : Database) (st : CoordinatorState)
    → db.state ≡ some st
    → st.vault_id ≡ ctx.session.vault_id
    → read_sync_pause db.state ≡ none
    → (db' : Database) × (c : Committed) × (commit_transaction ctx ms db ≡ ok (db', c))
      × (map answered_id c.results ≡ map (λ (m : Mutation). trim m.mutation_id) ms)
unfolding commit_transaction
commit_transaction-answers ctx ms db st is here running =
    let (s, looped, state, ids) = commit_all-AnswersAll ctx st here ms (start db) is in
    let (cursor, finished) = finish-ok ctx st here s (state ∙ is) in
    (
      saved ctx s,
      answer_at ctx st here s cursor,
      rw (running, commit_transaction) (rw looped finished),
      ids,
    )
