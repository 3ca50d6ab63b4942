-- ===== src/Commit/Cursor.antt =====
-- The cursor of the vault: what a commit changes gets a sequence number above the cursor that every
-- device has seen, and all numbers stay distinct and at most the cursor.
use mathlib.Core.Path.{subst₂}
use synch_api.Prelude.{
  ℕ, ◌+◌, ◌≤◌, ◌<◌, ◌≡◌, ◌≢◌, ◌⊎◌, refl, String, Option, none, some, List, [], ◌∷◌, arith, inl, inr,
  sym, ◌∙◌, ap, subst, Bool-cases, same, All, All-mono, or_else, max,
}
use synch_api.Policy.Entry.{EntryChange, apply, decide_entry_mutation}
use synch_api.Store.Rows.{Entry, CoordinatorState, Database, ok}
use synch_api.Store.Entries.{
  revision_in, read_entry, upsert_entry, read_entry-upsert_entry, All-upsert_entry,
}
use synch_api.Store.State.{current_cursor, read_vault_id, save_commit}
use synch_api.Commit.Round.{Answered, Applied}
use synch_api.Commit.Loop.{commit_all-keeps, commit_transaction-Runs, finish-saved}
use synch_api.Commit.Batch.{
  Context, Mutation, Batch, Committed, mutation_input, last_cursor, commit_transaction, start,
  saved_state,
}

abbrev AtMost : ℕ → Entry → Type 0
AtMost n e = e.updated_seq ≤ n

-- No row repeats the id or the sequence number of another.
abbrev pub Apart : Entry → Entry → Type 0
Apart e x = (x.entry_id ≢ e.entry_id) × (x.updated_seq ≢ e.updated_seq)

abbrev pub AllApart : List Entry → Type 0
AllApart [] = Unit
AllApart (e ∷ es) = All (Apart e) es × AllApart es

-- The entries as a log of changes up to the cursor.
pub record IsLog (n : ℕ) (es : List Entry) : Type 0 where
  pub at_most : All (AtMost n) es
  pub apart : AllApart es

abbrev Above : ℕ → Entry → Type 0
Above n row = n < row.updated_seq

All-Apart-upsert_entry :
    (n : ℕ) (e row : Entry) (es : List Entry)
    → e.entry_id ≢ row.entry_id
    → e.updated_seq ≤ n
    → n < row.updated_seq
    → All (Apart e) es
    → All (Apart e) (upsert_entry row es)
All-Apart-upsert_entry n e row es other low high h =
    All-upsert_entry (Apart e) row es (λ p. other (sym p), omega arith) h

-- The row that is written in the place of `e` takes its id and a number above all others.
Apart-replaced :
    (n : ℕ) (e row : Entry) (es : List Entry)
    → e.entry_id ≡ row.entry_id
    → n < row.updated_seq
    → All (AtMost n) es
    → All (Apart e) es
    → All (Apart row) es
Apart-replaced n e row [] hit high low h = tt
Apart-replaced n e row (x ∷ xs) hit high low h =
    ((λ p. h.0.0 (p ∙ sym hit), omega arith), Apart-replaced n e row xs hit high low.1 h.1)

AllApart-upsert_entry :
    (n : ℕ) (row : Entry) (es : List Entry)
    → n < row.updated_seq
    → All (AtMost n) es
    → AllApart es
    → AllApart (upsert_entry row es)
unfolding upsert_entry
AllApart-upsert_entry n row [] high low h = (tt, tt)
AllApart-upsert_entry n row (e ∷ es) high low h = elim (Bool-cases (same e.entry_id row.entry_id)) [
  | inl hit ↦ rw hit (Apart-replaced n e row es (ground arith) high low.1 h.0, h.1)
  | inr miss ↦ rw miss (
    All-Apart-upsert_entry n e row es (ground arith) low.0 high h.0,
    AllApart-upsert_entry n row es high low.1 h.1,
  )
]

pub IsLog-upsert_entry :
    (n : ℕ) (row : Entry) (es : List Entry)
    → row.updated_seq ≡ n + 1
    → IsLog n es
    → IsLog (n + 1) (upsert_entry row es)
IsLog-upsert_entry n row es next log = record {
  at_most =
      All-upsert_entry (AtMost (n + 1)) row es (omega arith)
        (All-mono es (λ e h. omega arith) log.at_most);
  apart = AllApart-upsert_entry n row es (omega arith) log.at_most log.apart;
}

-- What an entry's row may have become: nothing else, or a later revision numbered above `n`.
abbrev pub Follows : ℕ → Option Entry → Option Entry → Type 0
Follows n old new =
    (new ≡ old)
    ⊎ ((e : Entry) × (new ≡ some e) × (n < e.updated_seq) × (revision_in old < e.revision))

-- A change is applied to the revision that it is based on, and counts one up.
pub change-revision :
    (ctx : Context) (mutation_id : String) (m : Mutation) (current : Option Entry)
    (change : EntryChange)
    → decide_entry_mutation (mutation_input ctx mutation_id m current) ≡ apply change
    → (change.revision ≡ revision_in current + 1) × (revision_in current ≡ m.base_revision)
unfolding decide_entry_mutation
change-revision ctx mutation_id m none change e = ground arith
change-revision ctx mutation_id m (some c) change e = ground arith

pub Follows-row :
    (n : ℕ) (old now : Option Entry) (row : Entry)
    → Follows n old now
    → n < row.updated_seq
    → revision_in now < row.revision
    → Follows n old (some row)
Follows-row n old now row f high more = inr (row, refl, high, raised f)
  where
    raised : Follows n old now → revision_in old < row.revision
    raised (inl kept) = rw (← kept) more
    raised (inr (e, is, above, grown)) = omega (arith, ap revision_in is)

Follows-upsert_entry :
    (n : ℕ) (old : Option Entry) (id : String) (row : Entry) (es : List Entry)
    → Follows n old (read_entry id es)
    → n < row.updated_seq
    → revision_in (read_entry row.entry_id es) < row.revision
    → Follows n old (read_entry id (upsert_entry row es))
Follows-upsert_entry n old id row es f high more =
    rw (read_entry-upsert_entry id row es) (elim (Bool-cases (same row.entry_id id)) [
      | inl hit ↦ rw hit (
          Follows-row n old (read_entry id es) row f high (
            subst (λ (i : String). revision_in (read_entry i es) < row.revision) (ground arith)
              more))
      | inr miss ↦ rw miss f
    ])

ok-injective : (a b : ℕ) → ok a ≡ ok b → a ≡ b
ok-injective a b e = cc

-- The highest cursor of the batch is the last one that it took.
max-next :
    (highest next : Option ℕ) (start cursor : ℕ)
    → highest ≡ next
    → cursor ≡ or_else next start
    → some (max (or_else highest 0) (cursor + 1)) ≡ some (cursor + 1)
max-next highest none start cursor same at = rw same (ap some (omega arith))
max-next highest (some n) start cursor same at = rw same (ap some (omega arith))

-- The vault's row that the transaction starts from.
module _ (ctx : Context) (st : CoordinatorState) (here : st.vault_id ≡ ctx.session.vault_id) where
  abbrev pub reached : Batch → ℕ
  reached s = or_else s.next_cursor st.current_cursor

  pub last_cursor-reached : (s : Batch) → s.db.state ≡ some st → last_cursor ctx s ≡ ok (reached s)
  unfolding read_vault_id current_cursor
  last_cursor-reached s fixed = ground arith

  module _ (old : List Entry) where
    record Going (s : Batch) : Type 0 where
      state_fixed : s.db.state ≡ some st
      log : IsLog (reached s) s.db.entries
      grown : st.current_cursor ≤ reached s
      announced : s.highest_broadcast_cursor ≡ s.next_cursor
      advanced : (n : ℕ) → s.next_cursor ≡ some n → st.current_cursor < n
      frame :
          (id : String) → Follows st.current_cursor (read_entry id old) (read_entry id s.db.entries)

    Going-Answered :
        (m : Mutation) (s s' : Batch) → Answered ctx m s.seen_mutation_ids s s' → Going s → Going s'
    Going-Answered m s s' a g = record {
      state_fixed = cc (a.db_kept);
      log =
          subst₂ IsLog (ap (λ (o : Option ℕ). or_else o st.current_cursor) (sym a.cursor_kept))
            (ap (λ (d : Database). d.entries) (sym a.db_kept)) g.log;
      grown = rw a.cursor_kept g.grown;
      announced = cc (a.broadcast_kept, a.cursor_kept, g.announced);
      advanced = λ n e. g.advanced n (sym a.cursor_kept ∙ e);
      frame = λ id.
          subst
            (λ (d : Database).
              Follows st.current_cursor (read_entry id old) (read_entry id d.entries))
            (sym a.db_kept) (g.frame id);
    }

    Going-Applied : (m : Mutation) (s s' : Batch) → Applied ctx m s s' → Going s → Going s'
    Going-Applied m s s' a g = record {
      state_fixed = cc (a.state_kept, g.state_fixed);
      log = subst₂ IsLog (sym (reached-next s' a)) (sym a.entries_written) (
          IsLog-upsert_entry a.cursor _ s.db.entries refl
            (subst (λ (n : ℕ). IsLog n s.db.entries) (sym (cursor-reached s s' a g)) g.log));
      grown = omega (arith, reached-next s' a, cursor-reached s s' a g, g.grown);
      announced =
          a.broadcast_raised
          ∙ max-next s.highest_broadcast_cursor s.next_cursor st.current_cursor a.cursor g.announced
              (cursor-reached s s' a g)
          ∙ sym a.cursor_taken;
      advanced =
          λ n e. omega (arith, taken n (sym a.cursor_taken ∙ e), cursor-reached s s' a g, g.grown);
      frame = λ id.
          subst
            (λ (es : List Entry). Follows st.current_cursor (read_entry id old) (read_entry id es))
            (sym a.entries_written)
            (Follows-upsert_entry st.current_cursor (read_entry id old) id _ s.db.entries
              (g.frame id) (omega (arith, cursor-reached s s' a g, g.grown))
              (omega (arith, (change-revision ctx _ m _ a.change a.decided).0)));
    }
      where
        reached-next : (s' : Batch) (a : Applied ctx m s s') → reached s' ≡ a.cursor + 1
        reached-next s' a = ap (λ (o : Option ℕ). or_else o st.current_cursor) a.cursor_taken

        cursor-reached : (s s' : Batch) (a : Applied ctx m s s') → Going s → a.cursor ≡ reached s
        cursor-reached s s' a g =
            ok-injective _ _ (sym a.read ∙ last_cursor-reached s g.state_fixed)

        taken : (n : ℕ) → some (a.cursor + 1) ≡ some n → a.cursor + 1 ≡ n
        taken n e = ground arith

-- What clients are told: nothing if nothing changed, and else the new cursor.
abbrev pub Announces : ℕ → ℕ → Option ℕ → Type 0
Announces old new none = new ≡ old
Announces old new (some told) = (told ≡ new) × (old < new)

pub record Advances (st : CoordinatorState) (old : List Entry) (db' : Database) (c : Committed)
    : Type 0 where
  pub cursor : ℕ
  pub saved_cursor : current_cursor db'.state ≡ ok cursor
  pub told : Announces st.current_cursor cursor c.broadcast_cursor
  pub log : IsLog cursor db'.entries
  pub frame :
      (id : String) → Follows st.current_cursor (read_entry id old) (read_entry id db'.entries)

pub current_cursor-saved :
    (ctx : Context) (st : CoordinatorState) (s : Batch)
    → s.db.state ≡ some st
    → current_cursor (saved_state ctx s) ≡ ok (or_else s.next_cursor st.current_cursor)
unfolding current_cursor save_commit
current_cursor-saved ctx st s fixed = ground arith

Announces-next :
    (next : Option ℕ) (old : ℕ)
    → ((n : ℕ) → next ≡ some n → old < n)
    → Announces old (or_else next old) next
Announces-next none old up = refl
Announces-next (some n) old up = (refl, up n refl)

-- A commit that succeeds on a vault whose entries are a log up to the cursor leaves a log up to the
-- new cursor, which is higher exactly if the commit is announced. An entry whose row is not the old
-- one has a later revision, and a number above the old cursor: a device that has seen the old
-- cursor finds every change by asking for what lies above it.
pub commit_transaction-Advances :
    (ctx : Context) (ms : List Mutation) (db db' : Database) (c : Committed) (st : CoordinatorState)
    → db.state ≡ some st
    → st.vault_id ≡ ctx.session.vault_id
    → IsLog st.current_cursor db.entries
    → commit_transaction ctx ms db ≡ ok (db', c)
    → Advances st db.entries db' c
commit_transaction-Advances ctx ms db db' c st is here log e =
    let r = commit_transaction-Runs ctx ms db db' c e in
    let f = finish-saved ctx r.last db' c r.finished in
    let g =
      commit_all-keeps ctx (Going ctx st here db.entries) (Going-Answered ctx st here db.entries)
        (λ m s s'. Going-Applied ctx st here db.entries m s s') ms (start db) r.last r.looped
        (record {
          state_fixed = is;
          log = log;
          grown = omega arith;
          announced = refl;
          advanced = λ n h. cc;
          frame = λ id. inl refl;
        }) in
    record {
      cursor = or_else r.last.next_cursor st.current_cursor;
      saved_cursor =
          ap (λ (d : Database). current_cursor d.state) f.0
          ∙ current_cursor-saved ctx st r.last g.state_fixed;
      told =
          subst (Announces st.current_cursor (or_else r.last.next_cursor st.current_cursor))
            (sym (f.2 ∙ g.announced))
            (Announces-next r.last.next_cursor st.current_cursor g.advanced);
      log =
          subst (λ (d : Database). IsLog (or_else r.last.next_cursor st.current_cursor) d.entries)
            (sym f.0) g.log;
      frame = λ id.
          subst
            (λ (d : Database).
              Follows st.current_cursor (read_entry id db.entries) (read_entry id d.entries))
            (sym f.0) (g.frame id);
    }
