-- ===== src/Vault/Growth.antt =====
-- What a device that has pulled up to a cursor may rely on, whatever transactions follow.
use mathlib.Core.Path.{subst₂}
use synch_api.Prelude.{
  ℕ, ◌≡◌, ◌≤◌, sym, subst, ap, refl, ◌∙◌, String, Option, none, some, List, [], arith, inl, inr,
  ◌⊎◌, true,
}
use synch_api.Store.Rows.{Entry, CoordinatorState, Database, ok}
use synch_api.Store.Entries.{read_entry}
use synch_api.Store.State.{State, VaultStateLimits, ensure_vault_state, current_cursor}
use synch_api.Commit.Batch.{Context, Mutation, Committed, commit_transaction}
use synch_api.Commit.Cursor.{IsLog, Follows, Follows-row, commit_transaction-Advances, Announces}
use synch_api.Vault.Steps.{
  Step, Reach, Turn, System, idle, Anytime, transact, ask_delete, end_delete, lose_delete, purge,
  purge_vault_state, fresh, commit, stage, drop_staged, retire, collect, forget_history, expire,
  ensure, set_policy, pause, resume, complete_gc, start, after,
}
use synch_api.Blobs.Service.{delete_then}
use synch_api.Vault.Log.{
  stage_blob_record-Keeps, delete_blob_finish-Keeps, delete_unreferenced_staged_blob-Keeps,
  mark_unpinned_blob_pending_delete-Keeps, delete_collectible_blob_records-Keeps,
  cursor_of-apply_vault_policy, cursor_of-pause_sync, cursor_of-clear_sync_pause,
  cursor_of-record_gc_completed, cursor_of, LogAt, IsLogged, Keeps,
}

-- The vault has gone on from cursor `n`: its cursor is no lower, and the row of an entry is the one
-- of that time, or has a number above `n` and a later revision.
pub record Grown (n : ℕ) (db db' : Database) : Type 0 where
  pub cursor : ℕ
  pub reached : cursor_of db'.state ≡ some cursor
  pub no_lower : n ≤ cursor
  pub rows : (id : String) → Follows n (read_entry id db.entries) (read_entry id db'.entries)

Grown-refl : (n : ℕ) (db : Database) → cursor_of db.state ≡ some n → Grown n db db
Grown-refl n db at = record {
  cursor = n;
  reached = at;
  no_lower = omega arith;
  rows = λ id. inl refl;
}

Follows-trans :
    (n m : ℕ) (a b c : Option Entry) → n ≤ m → Follows n a b → Follows m b c → Follows n a c
Follows-trans n m a b c up f (inl kept) = subst (Follows n a) (sym kept) f
Follows-trans n m a b c up f (inr (row, is, above, more)) =
    subst (Follows n a) (sym is) (Follows-row n a b row f (omega arith) more)

Keeps-Grown :
    (n : ℕ) (db db' : Database) → Keeps db db' → cursor_of db.state ≡ some n → Grown n db db'
Keeps-Grown n db db' (entries, cursor) at = record {
  cursor = n;
  reached = cursor ∙ at;
  no_lower = omega arith;
  rows = λ id. inl (ap (read_entry id) entries);
}

Keeps-IsLogged : (db db' : Database) → Keeps db db' → IsLogged db → IsLogged db'
Keeps-IsLogged db db' (entries, cursor) log = subst₂ LogAt (sym cursor) (sym entries) log

-- What one step does to the log.
abbrev Moves : Database → Database → Type 0
Moves db db' = IsLogged db → IsLogged db' × ((n : ℕ) → cursor_of db.state ≡ some n → Grown n db db')

Keeps-Moves : (db db' : Database) → Keeps db db' → Moves db db'
Keeps-Moves db db' k log = (Keeps-IsLogged db db' k log, λ n. Keeps-Grown n db db' k)

current_cursor→cursor_of : (s : State) (n : ℕ) → current_cursor s ≡ ok n → cursor_of s ≡ some n
unfolding current_cursor
current_cursor→cursor_of none n e = cc
current_cursor→cursor_of (some st) n e = ground arith

no_lower : (old new : ℕ) (told : Option ℕ) → Announces old new told → old ≤ new
no_lower old new none h = omega arith
no_lower old new (some t) (told, up) = omega arith

commit-Moves :
    (ctx : Context) (ms : List Mutation) (db db' : Database) (c : Committed) (st : CoordinatorState)
    → db.state ≡ some st
    → st.vault_id ≡ ctx.session.vault_id
    → commit_transaction ctx ms db ≡ ok (db', c)
    → Moves db db'
commit-Moves ctx ms db db' c st is here e log =
    let before = ap cursor_of is in
    let a =
      commit_transaction-Advances ctx ms db db' c st is here
        (subst (λ (o : Option ℕ). LogAt o db.entries) before log) e in
    let now = current_cursor→cursor_of db'.state a.cursor a.saved_cursor in
    (
      subst (λ (o : Option ℕ). LogAt o db'.entries) (sym now) a.log,
      λ n at.
          subst (λ (k : ℕ). Grown k db db') (some-injective (sym before ∙ at))
            (record {
              cursor = a.cursor;
              reached = now;
              no_lower = no_lower st.current_cursor a.cursor c.broadcast_cursor a.told;
              rows = a.frame;
            }),
    )
  where
    some-injective : {x y : ℕ} → some x ≡ some y → x ≡ y
    some-injective p = cc

ensured :
    (vault_id : String) (limits : VaultStateLimits) (before state : State)
    → ensure_vault_state vault_id limits before ≡ ok state
    → (cursor_of state ≡ cursor_of before)
      ⊎ ((cursor_of before ≡ none) × (cursor_of state ≡ some 0))
unfolding ensure_vault_state
ensured vault_id limits none state e = inr (refl, cc e)
ensured vault_id limits (some st) state e = inl (ground arith)

ensure-Moves :
    (db : Database) (vault_id : String) (limits : VaultStateLimits) (state : State)
    → ensure_vault_state vault_id limits db.state ≡ ok state
    → Moves db (record db { state = state })
ensure-Moves db vault_id limits state e log = elim (ensured vault_id limits db.state state e) [
  | inl kept ↦ Keeps-Moves db (record db { state = state }) (refl, kept) log
  | inr (unset, zeroed) ↦ (
    subst₂ LogAt (sym zeroed) (sym (subst (λ (o : Option ℕ). LogAt o db.entries) unset log))
        no_entries,
    λ n at. absurd (cc (unset, at)),
  )
]
  where
    no_entries : IsLog 0 []
    no_entries = record { at_most = tt; apart = tt }

Step-Moves : {db db' : Database} → Step db db' → Moves db db'
Step-Moves {db} (commit ctx ms db' c st is here e) = commit-Moves ctx ms db db' c st is here e
Step-Moves {db} (stage id size now deadline db' d e) =
    Keeps-Moves db db' (stage_blob_record-Keeps db db' id size now deadline d e)
Step-Moves {db} (drop_staged id now) =
    Keeps-Moves db _ (delete_unreferenced_staged_blob-Keeps db id now)
Step-Moves {db} (retire id now) =
    Keeps-Moves db _ (mark_unpinned_blob_pending_delete-Keeps db id now)
Step-Moves {db} (collect ids now) =
    Keeps-Moves db _ (delete_collectible_blob_records-Keeps db ids now)
Step-Moves {db} (forget_history id) = Keeps-Moves db _ (refl, refl)
Step-Moves {db} (expire now) = Keeps-Moves db _ (refl, refl)
Step-Moves {db} (ensure vault_id limits state e) = ensure-Moves db vault_id limits state e
Step-Moves {db} (set_policy vault_id limits state applied e) =
    Keeps-Moves db _ (refl, cursor_of-apply_vault_policy vault_id limits db.state state applied e)
Step-Moves {db} (pause now reason) =
    Keeps-Moves db _ (refl, cursor_of-pause_sync now reason db.state)
Step-Moves {db} resume = Keeps-Moves db _ (refl, cursor_of-clear_sync_pause db.state)
Step-Moves {db} (complete_gc now) =
    Keeps-Moves db _ (refl, cursor_of-record_gc_completed now db.state)

Grown-trans :
    (n : ℕ) (a b c : Database)
    → Grown n a b
    → ((m : ℕ) → cursor_of b.state ≡ some m → Grown m b c)
    → Grown n a c
Grown-trans n a b c g next =
    let h = next g.cursor g.reached in
    record {
      cursor = h.cursor;
      reached = h.reached;
      no_lower = omega (arith, g.no_lower, h.no_lower);
      rows = λ id.
          Follows-trans n g.cursor (read_entry id a.entries) (read_entry id b.entries)
            (read_entry id c.entries) g.no_lower (g.rows id) (h.rows id);
    }

-- A turn moves the log, or is a purge.
Turn-Moves :
    {May : String → Database → Type 0} {P : Type 0} {s s' : System}
    → Turn May P s s'
    → Moves s.db s'.db ⊎ (P × (s'.db ≡ fresh))
unfolding purge_vault_state
Turn-Moves (transact db' step) = inl (Step-Moves step)
Turn-Moves {s = s} (ask_delete id now e) = inl (Keeps-Moves s.db s.db (refl, refl))
Turn-Moves {s = s} (end_delete before id rest e free) =
    inl (Keeps-Moves s.db _ (delete_blob_finish-Keeps (delete_then true) s.db id))
Turn-Moves {s = s} (lose_delete before id rest e) = inl (Keeps-Moves s.db s.db (refl, refl))
Turn-Moves (purge may) = inr (may, refl)

-- A vault's entries are a log up to its cursor, whatever it has gone through from an empty database.
pub Reach-IsLogged : {s : System} → Reach Anytime Unit idle s → IsLogged s.db
Reach-IsLogged r = from r refl
  where
    from :
        {first last : System} → Reach Anytime Unit first last → IsLogged first.db → IsLogged last.db
    from start log = log
    from (after r one) log = elim (Turn-Moves one) [
      | inl moves ↦ (moves (from r log)).0
      | inr (may, emptied) ↦ subst IsLogged (sym emptied) refl
    ]

Reach-Moves : {s s' : System} → Reach Anytime ⊥ s s' → Moves s.db s'.db
Reach-Moves {s} start log = (log, λ n. Grown-refl n s.db)
Reach-Moves {s} {s'} (after {s' = mid} r one) log = elim (Turn-Moves one) [
  | inl moves ↦
      let (mid_log, grown) = Reach-Moves r log in
      let (last_log, more) = moves mid_log in
      (last_log, λ n at. Grown-trans n s.db mid.db s'.db (grown n at) more)
  | inr (may, emptied) ↦ absurd may
]

-- A device that has pulled a vault up to its cursor `n`: as long as the vault is not purged, the
-- cursor does not fall, and the row of each entry is the one that the device knows or has a number
-- above `n` and a later revision, so that a pull from `n` on finds it.
pub Reach-Grown :
    {s s' : System} (n : ℕ)
    → Reach Anytime Unit idle s
    → Reach Anytime ⊥ s s'
    → cursor_of s.db.state ≡ some n
    → Grown n s.db s'.db
Reach-Grown n before since at = (Reach-Moves since (Reach-IsLogged before)).1 n at
