-- ===== src/Restore/Settles.antt =====
-- Every restore of a batch gets its answer, in its place.
use synch_api.Prelude.{
  ℕ, suc, ◌+◌, ◌-◌, ◌*◌, ◌≡◌, inl, inr, refl, sym, subst, ap, ◌∙◌, String, Bool, false, Option,
  none, List, [], ◌∷◌, ◌++◌, arith, Option-cases, length, map, map-append, append-nil, append-snoc,
  length-append,
}
use synch_api.Store.Entries.{read_entry}
use synch_api.Store.Versions.{read_entry_version}
use synch_api.Store.Rows.{Database, ok, first_step}
use synch_api.Store.State.{read_version_history_retention_days, current_cursor}
use synch_api.Commit.Batch.{
  Context, Mutation, Batch, BatchResult, accepted, rejected, Committed, start, commit_one,
  commit_all, commit_transaction,
}
use synch_api.Commit.Round.{commit_one-Cases, Cases, Said, ok-injective}
use synch_api.Commit.Loop.{commit_transaction-Runs, finish-saved}
use synch_api.Restore.Places.{
  restore_key, result_key, is_pending, pending_places, place_of, pending_places-snoc, set_elem-keys,
  pending_places-First, restore_at,
}
use synch_api.Restore.Batch.{
  Restore, RestoreRefusal, restore_commit_pending, entry_not_found, RestoreResult, refused, Staged,
  Check, turned_down, may_restore, rejected_restore, stage_checked, stage_restores, check_restore,
  nothing_staged, restore_start, set_elem, settled_result, settle_at, settle_all, head_of, tail_of,
  Restored, before_restoring, day_in_ms, restore_nothing, restore_finish, restore_staged,
  restore_entry_versions,
}

-- What the first loop keeps: the places of what waits, one mutation each.
record IsStaged (done : List Restore) (s : Staged) : Type 0 where
  places : s.mutation_indexes ≡ pending_places s.results
  keys : map result_key s.results ≡ map restore_key done
  as_many : length s.mutations ≡ length s.mutation_indexes

stage_checked-IsStaged :
    (random_uuid : ℕ → String) (r : Restore) (done : List Restore) (s : Staged) (c : Check)
    → ((why : RestoreRefusal) → c ≡ turned_down why → is_pending (rejected_restore r why) ≡ false)
    → IsStaged done s
    → IsStaged (done ++ r ∷ []) (stage_checked random_uuid r s c)
stage_checked-IsStaged random_uuid r done s (turned_down why) settled i = record {
  places =
      i.places
      ∙ sym (append-nil (pending_places s.results))
      ∙ ap (λ (b : Bool). pending_places s.results ++ place_of b (length s.results))
          (sym (settled why refl))
      ∙ sym (pending_places-snoc s.results (rejected_restore r why));
  keys =
      map-append result_key s.results (rejected_restore r why ∷ [])
      ∙ ap (λ (l : List (String × String)). l ++ restore_key r ∷ []) i.keys
      ∙ sym (map-append restore_key done (r ∷ []));
  as_many = i.as_many;
}
stage_checked-IsStaged random_uuid r done s (may_restore target) settled i = record {
  places =
      ap (λ (l : List ℕ). l ++ length s.results ∷ []) i.places
      ∙ sym (pending_places-snoc s.results (rejected_restore r restore_commit_pending));
  keys =
      map-append result_key s.results (rejected_restore r restore_commit_pending ∷ [])
      ∙ ap (λ (l : List (String × String)). l ++ restore_key r ∷ []) i.keys
      ∙ sym (map-append restore_key done (r ∷ []));
  as_many =
      length-append s.mutations _
      ∙ ap (λ (n : ℕ). n + 1) i.as_many
      ∙ sym (length-append s.mutation_indexes _);
}

-- The check turns nothing down as waiting for the commit.
check_restore-settled :
    (db : Database) (retention_start : ℕ) (r : Restore) (why : RestoreRefusal)
    → check_restore db retention_start r ≡ turned_down why
    → is_pending (rejected_restore r why) ≡ false
unfolding check_restore
check_restore-settled db retention_start r why e =
    elim (Option-cases (read_entry r.entry_id db.entries)) [
      | inl gone ↦ ground (arith, gone)
      | inr (current, found) ↦
          elim (Option-cases
            (read_entry_version r.entry_id r.version_id retention_start db.versions)) [
              | inl missing ↦ ground (arith, found, missing)
              | inr (target, there) ↦ ground (arith, found, there)
            ]
    ]

stage_restores-IsStaged :
    (random_uuid : ℕ → String) (db : Database) (retention_start : ℕ) (rs done : List Restore)
    (s : Staged)
    → IsStaged done s
    → IsStaged (done ++ rs) (stage_restores random_uuid db retention_start rs s)
unfolding stage_restores
stage_restores-IsStaged random_uuid db retention_start [] done s i =
    subst (λ (l : List Restore). IsStaged l s) (sym (append-nil done)) i
stage_restores-IsStaged random_uuid db retention_start (r ∷ rs) done s i =
    let next = stage_checked random_uuid r s (check_restore db retention_start r) in
    subst (λ (l : List Restore). IsStaged l (stage_restores random_uuid db retention_start rs next))
      (append-snoc done r rs)
      (stage_restores-IsStaged random_uuid db retention_start rs (done ++ r ∷ []) next (
        stage_checked-IsStaged random_uuid r done s (check_restore db retention_start r)
          (check_restore-settled db retention_start r) i))

length-commit_all :
    (ctx : Context) (ms : List Mutation) (s s' : Batch)
    → commit_all ctx ms s ≡ ok s'
    → length s'.results ≡ length s.results + length ms
unfolding commit_all
length-commit_all ctx [] s s' e =
    omega (arith, ap (λ (b : Batch). length b.results) (ok-injective s s' e))
length-commit_all ctx (m ∷ ms) s s' e =
    let (t, first, rest) = first_step (commit_all ctx ms) (commit_one ctx m s) e in
    length-commit_all ctx ms t s' rest ∙ one t (commit_one-Cases ctx m s t first)
  where
    from_said :
        (t : Batch) → Said m s t → length t.results + length ms ≡ length s.results + suc (length ms)
    from_said t d = omega (arith, ap length d.added, length-append s.results (d.answer ∷ []))

    one :
        (t : Batch)
        → Cases ctx m s.seen_mutation_ids s t
        → length t.results + length ms ≡ length s.results + suc (length ms)
    one t (inl a) = from_said t a.said
    one t (inr a) = from_said t a.said

settled_result-settled :
    (r : Restore) (from : Option ℕ) (a : BatchResult) → is_pending (settled_result r from a) ≡ false
settled_result-settled r from (accepted mutation_id cursor entry_id revision) = refl
settled_result-settled r from (rejected mutation_id entry_id code) = refl

settled_result-key :
    (r : Restore) (from : Option ℕ) (a : BatchResult)
    → result_key (settled_result r from a) ≡ restore_key r
settled_result-key r from (accepted mutation_id cursor entry_id revision) = refl
settled_result-key r from (rejected mutation_id entry_id code) = refl

-- As many answers as places settle every place.
settle_all-Settled :
    (rs : List Restore) (answers : List BatchResult) (is revisions : List ℕ)
    (xs : List RestoreResult)
    → length answers ≡ length is
    → is ≡ pending_places xs
    → map result_key xs ≡ map restore_key rs
    → (pending_places (settle_all rs answers is revisions xs) ≡ [])
      × (map result_key (settle_all rs answers is revisions xs) ≡ map restore_key rs)
unfolding settle_all
settle_all-Settled rs [] [] revisions xs many places keys = (sym places, keys)
settle_all-Settled rs [] (i ∷ is) revisions xs many places keys = absurd (omega (arith, many))
settle_all-Settled rs (a ∷ answers) [] revisions xs many places keys = absurd (omega (arith, many))
settle_all-Settled rs (a ∷ answers) (i ∷ is) revisions xs many places keys =
    let ((x, there), left) =
      pending_places-First xs i is (refused "" "" entry_not_found) refl (sym places) in
    let (r, found, same_key) = restore_at rs xs i x keys there in
    let y = settled_result r (head_of revisions) a in
    let first =
      pending_places-First xs i is y (settled_result-settled r (head_of revisions) a)
        (sym places) in
    let key =
      set_elem-keys xs i x y there (settled_result-key r (head_of revisions) a ∙ same_key) in
    subst
      (λ (o : Option Restore).
        (pending_places
            (settle_all rs answers is (tail_of revisions) (settle_at o i (head_of revisions) a xs))
          ≡ [])
        × (map result_key (
              settle_all rs answers is (tail_of revisions) (settle_at o i (head_of revisions) a xs))
            ≡ map restore_key rs))
      (sym found)
      (settle_all-Settled rs answers is (tail_of revisions) (set_elem i y xs) (omega (arith, many))
        (sym first.1) (key ∙ keys))

-- No place is left that waits, and each result is for its restore.
abbrev pub Settled : List Restore → List RestoreResult → Type 0
Settled rs xs = (pending_places xs ≡ []) × (map result_key xs ≡ map restore_key rs)

commit_transaction-length :
    (ctx : Context) (ms : List Mutation) (db : Database) (p : Database × Committed)
    → commit_transaction ctx ms db ≡ ok p
    → length p.1.results ≡ length ms
commit_transaction-length ctx ms db (db', c) e =
    let r = commit_transaction-Runs ctx ms db db' c e in
    omega (
      arith,
      ap length (finish-saved ctx r.last db' c r.finished).1,
      length-commit_all ctx ms (start db) r.last r.looped,
    )

restore_staged-Settled :
    (ctx : Context) (rs : List Restore) (db found db' : Database) (s : Staged) (out : Restored)
    (ms : List Mutation)
    → s.mutations ≡ ms
    → IsStaged rs s
    → restore_staged ctx rs db found s ms ≡ ok (db', out)
    → Settled rs out.results
unfolding restore_nothing restore_finish
restore_staged-Settled ctx rs db found db' s out [] none_staged i e =
    let (r, nothing, last) = first_step (λ (r : Restored). ok (db, r)) (restore_nothing db s) e in
    let (cursor, read, done) =
      first_step
        (λ (n : ℕ). ok (record { cursor = n; results = s.results; broadcast_cursor = none }))
        (current_cursor db.state) nothing in
    subst (λ (out : Restored). Settled rs out.results) (result-is _ _ last)
      (subst (λ (out : Restored). Settled rs out.results) (restored-is _ _ done)
        (
          sym i.places ∙ no_index s.mutation_indexes (sym i.as_many ∙ ap length none_staged),
          i.keys,
        ))
  where
    result-is : (p q : Database × Restored) → ok p ≡ ok q → p.1 ≡ q.1
    result-is p q h = cc

    restored-is : (p q : Restored) → ok p ≡ ok q → p ≡ q
    restored-is p q h = cc

    no_index : (is : List ℕ) → length is ≡ 0 → is ≡ []
    no_index [] h = refl
    no_index (i ∷ is) h = absurd (omega (arith, h))
restore_staged-Settled ctx rs db found db' s out (m ∷ ms) staged i e =
    let (p, committed, last) =
      first_step (λ (p : Database × Committed). ok (p.0, restore_finish rs s p.1))
        (commit_transaction (before_restoring ctx) (m ∷ ms) found) e in
    let answers : length p.1.results ≡ length s.mutation_indexes =
      commit_transaction-length (before_restoring ctx) (m ∷ ms) found p committed
      ∙ sym (ap length staged)
      ∙ i.as_many in
    subst (λ (out : Restored). Settled rs out.results) (result-is _ _ last)
      (settle_all-Settled rs p.1.results s.mutation_indexes s.restored_from_revisions s.results
        answers i.places i.keys)
  where
    result-is : (p q : Database × Restored) → ok p ≡ ok q → p.1 ≡ q.1
    result-is p q h = cc

-- A batch of restores that succeeds answers each restore once, in order and by its own entry and
-- version, and none is left waiting for the commit, whatever the database is when the commit runs.
pub restore_entry_versions-Settled :
    (ctx : Context) (random_uuid : ℕ → String) (restores : List Restore) (db found db' : Database)
    (out : Restored)
    → restore_entry_versions ctx random_uuid restores db found ≡ ok (db', out)
    → Settled restores out.results
unfolding restore_entry_versions restore_start pending_places
restore_entry_versions-Settled ctx random_uuid restores db found db' out e =
    let (s, begun, last) =
      first_step (λ (s : Staged). restore_staged ctx restores db found s s.mutations)
        (restore_start random_uuid ctx.now restores db) e in
    let (days, read, done) =
      first_step
        (λ (days : ℕ).
          ok (stage_restores random_uuid db (ctx.now - days * day_in_ms) restores nothing_staged))
        (read_version_history_retention_days db.state) begun in
    restore_staged-Settled ctx restores db found db' s out s.mutations refl
      (subst (IsStaged restores) (staged-is _ _ done) (
        stage_restores-IsStaged random_uuid db (ctx.now - days * day_in_ms) restores []
          nothing_staged (record { places = refl; keys = refl; as_many = refl })))
      last
  where
    staged-is : (p q : Staged) → ok p ≡ ok q → p ≡ q
    staged-is p q h = cc
