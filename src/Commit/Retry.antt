-- ===== src/Commit/Retry.antt =====
-- A client that does not hear the answer sends its mutation again: the same answer comes back and
-- nothing is written twice.
use synch_api.Prelude.{
  ℕ, ◌≡◌, sym, ap, ◌∙◌, subst, String, none, some, [], ◌∷◌, arith, trim, max, inl, inr,
}
use synch_api.Policy.Entry.{idempotent, decide_entry_mutation}
use synch_api.Store.Rows.{Entry, Database, Result, ok, first_step}
use synch_api.Store.Entries.{read_entry}
use synch_api.Store.Versions.{contains}
use synch_api.Store.State.{read_sync_pause}
use synch_api.Commit.Round.{Said, Stands, commit_one-Cases, Cases}
use synch_api.Commit.Loop.{commit_transaction-Runs, finish-saved}
use synch_api.Commit.Batch.{
  Context, Mutation, Batch, BatchResult, accepted, Committed, mutation_input, follow_decision,
  commit_new, commit_one, commit_all, commit_transaction, start, finish,
}

decide-again :
    (ctx : Context) (mutation_id : String) (m : Mutation) (e : Entry)
    → e.last_mutation_id ≡ some mutation_id
    → decide_entry_mutation (mutation_input ctx mutation_id m (some e)) ≡ idempotent
unfolding decide_entry_mutation
decide-again ctx mutation_id m e last = ground arith

abbrev again : Database → Entry → String → ℕ → Result (Database × Committed)
again db e mutation_id cursor = ok (
  db,
  record {
    cursor = cursor;
    results = accepted mutation_id e.updated_seq e.entry_id e.revision ∷ [];
    broadcast_cursor = none;
  },
)

max_zero : (n : ℕ) → max 0 n ≡ n
max_zero n = omega arith

-- The answer to a mutation that its entry's row knows as the last one.
pub commit_known :
    (ctx : Context) (m : Mutation) (db : Database) (e : Entry)
    → read_sync_pause db.state ≡ none
    → read_entry m.entry_id db.entries ≡ some e
    → e.last_mutation_id ≡ some (trim m.mutation_id)
    → commit_transaction ctx (m ∷ []) db
      ≡ ok (
        db,
        record {
          cursor = e.updated_seq;
          results = accepted (trim m.mutation_id) e.updated_seq e.entry_id e.revision ∷ [];
          broadcast_cursor = none;
        },
      )
unfolding commit_transaction commit_all commit_one commit_new follow_decision finish contains
commit_known ctx m db e running found last =
    rw (running, commit_transaction)
      (rw (found, commit_new)
        (rw (decide-again ctx (trim m.mutation_id) m e last, follow_decision)
          (ap (again db e (trim m.mutation_id)) (max_zero e.updated_seq))))

-- The row behind the one accepted answer of a batch of one mutation.
row_of :
    (ctx : Context) (m : Mutation) (db : Database) (s : Batch) {mutation_id entry_id : String}
    {cursor revision : ℕ}
    → commit_all ctx (m ∷ []) (start db) ≡ ok s
    → s.results ≡ accepted mutation_id cursor entry_id revision ∷ []
    → Stands (accepted mutation_id cursor entry_id revision) (read_entry m.entry_id s.db.entries)
unfolding commit_all
row_of ctx m db s {mutation_id} {entry_id} {cursor} {revision} looped results =
    let (t, first, rest) = first_step (commit_all ctx []) (commit_one ctx m (start db)) looped in
    said t (commit_one-Cases ctx m (start db) t first) (ground arith)
  where
    from_said :
        (t : Batch)
        → Said m (start db) t
        → t ≡ s
        → Stands
            (accepted mutation_id cursor entry_id revision)
            (read_entry m.entry_id s.db.entries)
    from_said t d e =
        subst (λ (a : BatchResult). Stands a (read_entry m.entry_id s.db.entries))
          {y = accepted mutation_id cursor entry_id revision}
          (ground (arith, d.added, ap (λ (b : Batch). b.results) e, results))
          (subst (λ (b : Batch). Stands d.answer (read_entry m.entry_id b.db.entries)) e d.stands)

    said :
        (t : Batch)
        → Cases ctx m [] (start db) t
        → t ≡ s
        → Stands
            (accepted mutation_id cursor entry_id revision)
            (read_entry m.entry_id s.db.entries)
    said t (inl a) e = from_said t a.said e
    said t (inr a) e = from_said t a.said e

-- Once a mutation sent alone has been accepted, sending it alone again, under whichever session, time
-- and supply of ids, and on whichever later database, so long as that is not paused and has the
-- entry's row as the commit left it, is answered with the same cursor and revision, leaves the
-- database exactly as it is and announces nothing.
pub commit_transaction-retry :
    (ctx ctx' : Context) (m : Mutation) (db db' later : Database) (c : Committed)
    (entry_id : String) (cursor revision : ℕ)
    → commit_transaction ctx (m ∷ []) db ≡ ok (db', c)
    → c.results ≡ accepted (trim m.mutation_id) cursor entry_id revision ∷ []
    → read_entry m.entry_id later.entries ≡ read_entry m.entry_id db'.entries
    → read_sync_pause later.state ≡ none
    → commit_transaction ctx' (m ∷ []) later
      ≡ ok (later, record { cursor = cursor; results = c.results; broadcast_cursor = none })
commit_transaction-retry ctx ctx' m db db' later c entry_id cursor revision e results kept running =
    let r = commit_transaction-Runs ctx (m ∷ []) db db' c e in
    let (is, said, told) = finish-saved ctx r.last db' c r.finished in
    let (row, found, last, at, rev, named) = row_of ctx m db r.last r.looped (sym said ∙ results) in
    commit_known ctx' m later row running
      (kept ∙ ap (λ (d : Database). read_entry m.entry_id d.entries) is ∙ found) last
    ∙ cc (at, rev, named, results)
