-- ===== src/Vault/Accounts.antt =====
-- The storage counter in every state that a vault can come to.
use synch_api.Prelude.{
  ℕ, ◌≡◌, sym, subst, ap, refl, ◌∙◌, String, Bool, true, Option, none, some, List, arith, false,
  inl, inr, not, ◌||◌, Bool-cases, Option-cases,
}
use synch_api.Store.Rows.{Blob, Database, ok, Result, ◌>>=◌, err}
use synch_api.Store.State.{
  State, VaultStateLimits, ensure_vault_state, pause_sync, clear_sync_pause, record_gc_completed,
  apply_vault_policy, save_commit, vault_state_exists_for,
}
use synch_api.Store.Sizes.{total_size-update_state, total_size}
use synch_api.Commit.Batch.{
  Context, Mutation, Batch, Committed, commit_transaction, start as start_batch, saved_state,
}
use synch_api.Commit.Loop.{commit_all-keeps, commit_transaction-Runs, finish-saved}
use synch_api.Blobs.Accounting.{Balances, IsAccounted, account_for_deleted_blobs-IsAccounted}
use synch_api.Blobs.Staging.{stage_blob_record-IsAccounted}
use synch_api.Blobs.Records.{
  delete_unreferenced_staged_blob, mark_unpinned_blob_pending_delete,
  delete_collectible_blob_records,
}
use synch_api.Store.Blobs.{
  collection_facts, read_blob, delete_blob_record, delete_collectible_blobs, matches_record,
}
use synch_api.Store.References.{read_blob_reference_facts}
use synch_api.Policy.BlobGc.{
  PendingDecision, mark_pending_delete, retain, decide_pending_delete, pending_delete, staged,
  same_state, is_blob_pinned,
}
use synch_api.Blobs.Service.{delete_then, delete_blob_finish}
use synch_api.Vault.Log.{policy_step}
use synch_api.Vault.Steps.{
  Step, Reach, Turn, System, idle, Anytime, transact, ask_delete, end_delete, lose_delete, purge,
  purge_vault_state, commit, stage, drop_staged, retire, collect, forget_history, expire, ensure,
  set_policy, pause, resume, complete_gc, start, after,
}

module _ (ctx : Context) (db : Database) where
  -- What the loop leaves of the accounts: the row, and the records' bytes.
  record Kept (s : Batch) : Type 0 where
    row_kept : s.db.state ≡ db.state
    bytes_kept : total_size s.db.blobs ≡ total_size db.blobs

  Balances-saved_state :
      (s : Batch) (total : ℕ) → Balances s.db.state total → Balances (saved_state ctx s) total
  unfolding save_commit
  Balances-saved_state s total h = go s.next_cursor s.db.state h
    where
      go :
          (next : Option ℕ) (state : State)
          → Balances state total
          → Balances
              (elim next [ none ↦ state | some cursor ↦ save_commit cursor ctx.now state ])
              total
      go none state k = k
      go (some cursor) none k = k
      go (some cursor) (some st) k = k

  commit_transaction-IsAccounted :
      (ms : List Mutation) (db' : Database) (c : Committed)
      → commit_transaction ctx ms db ≡ ok (db', c)
      → IsAccounted db
      → IsAccounted db'
  commit_transaction-IsAccounted ms db' c e s =
      let r = commit_transaction-Runs ctx ms db db' c e in
      let kept =
        commit_all-keeps ctx Kept
          (λ m s s' a h. record {
            row_kept = ap (λ (d : Database). d.state) a.db_kept ∙ h.row_kept;
            bytes_kept = ap (λ (d : Database). total_size d.blobs) a.db_kept ∙ h.bytes_kept;
          })
          (λ m s s' a h. record {
            row_kept = a.state_kept ∙ h.row_kept;
            bytes_kept = a.size_kept ∙ h.bytes_kept;
          })
          ms (start_batch db) r.last r.looped (record { row_kept = refl; bytes_kept = refl }) in
      subst (λ (d : Database). Balances d.state (total_size d.blobs))
        (sym (finish-saved ctx r.last db' c r.finished).0)
        (Balances-saved_state r.last _ (
          subst (Balances r.last.db.state) (sym kept.bytes_kept)
            (subst (λ (x : State). Balances x (total_size db.blobs)) (sym kept.row_kept) s)))

ok-injective : {A : Type 0} {x y : A} → ok x ≡ ok y → x ≡ y
ok-injective e = cc

Balances-ensure :
    (vault_id : String) (limits : VaultStateLimits) (before state : State) (total : ℕ)
    → ensure_vault_state vault_id limits before ≡ ok state
    → Balances before total
    → Balances state total
unfolding ensure_vault_state
Balances-ensure vault_id limits none state total e h =
    subst (λ (x : State). Balances x total) (ok-injective e) (sym h)
Balances-ensure vault_id limits (some st) state total e h =
    subst (λ (x : State). Balances x total) kept h
  where
    kept : some st ≡ state
    kept = ground arith

Balances-policy :
    (vault_id : String) (limits : VaultStateLimits) (before state : State) (applied : Bool)
    (total : ℕ)
    → apply_vault_policy vault_id limits before ≡ ok (state, applied)
    → Balances before total
    → Balances state total
unfolding apply_vault_policy
Balances-policy vault_id limits before state applied total e h =
    from before (vault_state_exists_for vault_id before) e h
  where
    carried :
        {x : State} {b : Bool}
        → ◌≡◌ {A = Result (State × Bool)} (ok (x, b)) (ok (state, applied))
        → Balances x total
        → Balances state total
    carried p k =
        subst (λ (y : State). Balances y total) (ap (λ (q : State × Bool). q.0) (ok-injective p)) k

    from :
        (s : State) (r : Result Bool)
        → (r >>= policy_step limits s) ≡ ok (state, applied)
        → Balances s total
        → Balances state total
    from none (ok true) p k = carried p k
    from (some st) (ok true) p k = carried p k
    from none (ok false) p k = carried p k
    from (some st) (ok false) p k = carried p k
    from s (err why) p k = cc

Balances-pause_sync :
    (now : ℕ) (reason : String) (state : State) (total : ℕ)
    → Balances state total
    → Balances (pause_sync now reason state) total
unfolding pause_sync
Balances-pause_sync now reason none total h = h
Balances-pause_sync now reason (some st) total h = h

Balances-clear_sync_pause :
    (state : State) (total : ℕ) → Balances state total → Balances (clear_sync_pause state) total
unfolding clear_sync_pause
Balances-clear_sync_pause none total h = h
Balances-clear_sync_pause (some st) total h = h

Balances-record_gc_completed :
    (now : ℕ) (state : State) (total : ℕ)
    → Balances state total
    → Balances (record_gc_completed now state) total
unfolding record_gc_completed
Balances-record_gc_completed now none total h = h
Balances-record_gc_completed now (some st) total h = h

delete_unreferenced_staged_blob-IsAccounted :
    (db : Database) (id : String) (now : ℕ)
    → IsAccounted db
    → IsAccounted (delete_unreferenced_staged_blob db id now).0
unfolding delete_unreferenced_staged_blob delete_blob_record
delete_unreferenced_staged_blob-IsAccounted db id now s =
    elim (Option-cases (read_blob id db.blobs)) [
      | inl gone ↦ rw (gone, delete_unreferenced_staged_blob) s
      | inr (b, found) ↦
          elim (Bool-cases (
            not (same_state b.state staged)
            || is_blob_pinned (read_blob_reference_facts db id now))) [
              | inl used ↦ rw (found, delete_unreferenced_staged_blob) (rw used s)
              | inr free ↦
                  rw (found, delete_unreferenced_staged_blob)
                    (rw free (
                      account_for_deleted_blobs-IsAccounted db (matches_record id (some staged)) s))
            ]
    ]

marked :
    (db : Database) (id : String) (now : ℕ) (b : Blob) (d : PendingDecision)
    → read_blob id db.blobs ≡ some b
    → decide_pending_delete (collection_facts db now b) now ≡ d
    → IsAccounted db
    → IsAccounted (mark_unpinned_blob_pending_delete db id now)
unfolding mark_unpinned_blob_pending_delete
marked db id now b (retain why) found e s = rw (found, mark_unpinned_blob_pending_delete) (rw e s)
marked db id now b (mark_pending_delete deadline) found e s =
    rw (found, mark_unpinned_blob_pending_delete)
      (rw e (
        subst (Balances db.state)
          (sym (total_size-update_state id pending_delete (some deadline) db.blobs)) s))

mark_unpinned_blob_pending_delete-IsAccounted :
    (db : Database) (id : String) (now : ℕ)
    → IsAccounted db
    → IsAccounted (mark_unpinned_blob_pending_delete db id now)
unfolding mark_unpinned_blob_pending_delete
mark_unpinned_blob_pending_delete-IsAccounted db id now s =
    elim (Option-cases (read_blob id db.blobs)) [
      | inl gone ↦ rw (gone, mark_unpinned_blob_pending_delete) s
      | inr (b, found) ↦ marked db id now b _ found refl s
    ]

delete_collectible_blob_records-IsAccounted :
    (db : Database) (ids : List String) (now : ℕ)
    → IsAccounted db
    → IsAccounted (delete_collectible_blob_records db ids now).0
unfolding delete_collectible_blob_records delete_collectible_blobs
delete_collectible_blob_records-IsAccounted db ids now s =
    account_for_deleted_blobs-IsAccounted db _ s

delete_blob_finish-IsAccounted :
    (db : Database) (id : String)
    → IsAccounted db
    → IsAccounted (delete_blob_finish (delete_then true) db id)
unfolding delete_blob_finish delete_blob_record
delete_blob_finish-IsAccounted db id s =
    account_for_deleted_blobs-IsAccounted db (matches_record id none) s

-- Every transaction keeps the counter equal to the bytes of the records.
pub Step-IsAccounted : {db db' : Database} → Step db db' → IsAccounted db → IsAccounted db'
Step-IsAccounted {db} (commit ctx ms db' c st is here e) s =
    commit_transaction-IsAccounted ctx db ms db' c e s
Step-IsAccounted {db} (stage id size now deadline db' d e) s =
    stage_blob_record-IsAccounted db db' id size now deadline d e s
Step-IsAccounted {db} (drop_staged id now) s =
    delete_unreferenced_staged_blob-IsAccounted db id now s
Step-IsAccounted {db} (retire id now) s = mark_unpinned_blob_pending_delete-IsAccounted db id now s
Step-IsAccounted {db} (collect ids now) s = delete_collectible_blob_records-IsAccounted db ids now s
Step-IsAccounted {db} (forget_history id) s = s
Step-IsAccounted {db} (expire now) s = s
Step-IsAccounted {db} (ensure vault_id limits state e) s =
    Balances-ensure vault_id limits db.state state _ e s
Step-IsAccounted {db} (set_policy vault_id limits state applied e) s =
    Balances-policy vault_id limits db.state state applied _ e s
Step-IsAccounted {db} (pause now reason) s = Balances-pause_sync now reason db.state _ s
Step-IsAccounted {db} resume s = Balances-clear_sync_pause db.state _ s
Step-IsAccounted {db} (complete_gc now) s = Balances-record_gc_completed now db.state _ s

-- Whatever a vault has gone through from an empty database, and whenever deletions of blobs end, the
-- storage counter is the sum of the records' bytes.
pub Reach-IsAccounted : {s : System} → Reach Anytime Unit idle s → IsAccounted s.db
unfolding total_size purge_vault_state
Reach-IsAccounted r = from r refl
  where
    turn : {s s' : System} → Turn Anytime Unit s s' → IsAccounted s.db → IsAccounted s'.db
    turn (transact db' step) even = Step-IsAccounted step even
    turn (ask_delete id now e) even = even
    turn {s} (end_delete before id rest e free) even = delete_blob_finish-IsAccounted s.db id even
    turn (lose_delete before id rest e) even = even
    turn (purge may) even = refl

    from :
        {first last : System}
        → Reach Anytime Unit first last
        → IsAccounted first.db
        → IsAccounted last.db
    from start even = even
    from (after r one) even = turn one (from r even)
