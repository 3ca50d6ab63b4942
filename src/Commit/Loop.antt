-- ===== src/Commit/Loop.antt =====
-- Invariants of the commit loop, by induction on the batch.
use synch_api.Prelude.{◌≡◌, none, List, [], ◌∷◌, arith, inl, inr, sym, subst, Option-cases}
use synch_api.Store.Rows.{Database, ok, first_step}
use synch_api.Store.State.{read_sync_pause}
use synch_api.Store.Liveness.{AllLive}
use synch_api.Commit.Round.{Answered, Applied, commit_one-Cases}
use synch_api.Commit.Batch.{
  Context, Mutation, Batch, Committed, commit_one, commit_all, commit_transaction, finish, start,
  saved,
}

module _ (ctx : Context) (I : Batch → Type 0)
    (answered : (m : Mutation) (s s' : Batch)
      → Answered ctx m s.seen_mutation_ids s s'
      → I s
      → I s')
    (applied : (m : Mutation) (s s' : Batch) → Applied ctx m s s' → I s → I s') where
  commit_one-keeps : (m : Mutation) (s s' : Batch) → commit_one ctx m s ≡ ok s' → I s → I s'
  commit_one-keeps m s s' e h = elim (commit_one-Cases ctx m s s' e) [
    | inl a ↦ answered m s s' a h
    | inr a ↦ applied m s s' a h
  ]

  pub commit_all-keeps :
      (ms : List Mutation) (s s' : Batch) → commit_all ctx ms s ≡ ok s' → I s → I s'
  unfolding commit_all
  commit_all-keeps [] s s' e h = subst I (ok-injective s s' e) h
    where
      ok-injective : (a b : Batch) → ok a ≡ ok b → a ≡ b
      ok-injective a b p = cc
  commit_all-keeps (m ∷ ms) s s' e h =
      let (t, first, rest) = first_step (commit_all ctx ms) (commit_one ctx m s) e in
      commit_all-keeps ms t s' rest (commit_one-keeps m s t first h)

-- A transaction that succeeds is a loop that succeeds, whose cursor is then saved.
pub record Runs (ctx : Context) (ms : List Mutation) (db db' : Database) (c : Committed)
    : Type 0 where
  pub last : Batch
  pub running : read_sync_pause db.state ≡ none
  pub looped : commit_all ctx ms (start db) ≡ ok last
  pub finished : finish ctx last ≡ ok (db', c)

pub commit_transaction-Runs :
    (ctx : Context) (ms : List Mutation) (db db' : Database) (c : Committed)
    → commit_transaction ctx ms db ≡ ok (db', c)
    → Runs ctx ms db db' c
unfolding commit_transaction
commit_transaction-Runs ctx ms db db' c e = elim (Option-cases (read_sync_pause db.state)) [
  | inl running ↦
      let (last, looped, finished) =
        first_step (finish ctx) (commit_all ctx ms (start db))
          (rw (running, commit_transaction) at e) in
      record { last = last; running = running; looped = looped; finished = finished }
  | inr (p, paused) ↦ absurd (ground arith)
]

pub finish-saved :
    (ctx : Context) (s : Batch) (db' : Database) (c : Committed)
    → finish ctx s ≡ ok (db', c)
    → (db' ≡ saved ctx s)
      × (c.results ≡ s.results)
      × (c.broadcast_cursor ≡ s.highest_broadcast_cursor)
unfolding finish
finish-saved ctx s db' c e = ground arith

-- Whatever blob a current entry names has a live record after the commit, if it had before.
pub commit_transaction-AllLive :
    (ctx : Context) (ms : List Mutation) (db db' : Database) (c : Committed)
    → commit_transaction ctx ms db ≡ ok (db', c)
    → AllLive db.entries db.blobs
    → AllLive db'.entries db'.blobs
commit_transaction-AllLive ctx ms db db' c e h =
    let r = commit_transaction-Runs ctx ms db db' c e in
    let kept =
      commit_all-keeps ctx (λ s. AllLive s.db.entries s.db.blobs)
        (λ m s s' a. subst (λ (d : Database). AllLive d.entries d.blobs) (sym a.db_kept))
        (λ m s s' a. a.stays_live) ms (start db) r.last r.looped h in
    subst (λ (d : Database). AllLive d.entries d.blobs)
      (sym (finish-saved ctx r.last db' c r.finished).0) kept
