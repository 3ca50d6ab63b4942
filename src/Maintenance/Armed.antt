-- ===== src/Maintenance/Armed.antt =====
-- The alarm against the table of jobs, for `defer` and `rearm` of maintenance-scheduler.ts.
use synch_api.Prelude.{
  ℕ, ◌≡◌, ◌≤◌, refl, sym, String, true, Option, none, some, List, [], ◌∷◌, ◌++◌, arith, same,
  Option-cases, Bool-cases, inl, inr, subst, false, is_some,
}
use synch_api.Maintenance.Jobs.{
  Job, Scheduler, rearm, rearm_at, read_next_due_at, row_of, read_job, update_job, upsert_job,
  sooner, new_job, defer, maintenance_job_due_at, is_early_enough, least,
}

-- The alarm is set for the first job that is due, and not set if there is none.
abbrev pub IsArmed : Scheduler → Type 0
IsArmed s = s.alarm ≡ read_next_due_at s.jobs

rearm_at-next : (next existing : Option ℕ) → rearm_at next existing ≡ next
rearm_at-next none existing = refl
rearm_at-next (some t) none = refl
rearm_at-next (some t) (some s) = ground arith

pub rearm-IsArmed : (s : Scheduler) → IsArmed (rearm s)
unfolding rearm
rearm-IsArmed s = rearm_at-next (read_next_due_at s.jobs) s.alarm

-- The first due time is not after that of a row.
abbrev pub DueBy : ℕ → Option ℕ → Type 0
DueBy t none = ⊥
DueBy t (some at) = at ≤ t

least-own : (a : ℕ) (o : Option ℕ) → least a o ≤ a
least-own a none = omega arith
least-own a (some b) = omega arith

least-rest : (a t : ℕ) (o : Option ℕ) → DueBy t o → least a o ≤ t
least-rest a t none h = absurd h
least-rest a t (some b) h = omega arith

read_next_due_at-row :
    (key : String) (jobs : List Job) {j : Job} (t : ℕ)
    → row_of key jobs ≡ some j
    → j.due_at ≤ t
    → DueBy t (read_next_due_at jobs)
unfolding row_of read_next_due_at
read_next_due_at-row key [] t found early = cc
read_next_due_at-row key (k ∷ ks) {j} t found early = elim (Bool-cases (same k.key key)) [
  | inl this ↦ ground (arith, least-own k.due_at (read_next_due_at ks))
  | inr other ↦
      least-rest k.due_at t (read_next_due_at ks)
        (read_next_due_at-row key ks t (rw (row_of, other) at found) early)
]

-- A row of the key with its due time at or before `t`.
abbrev pub HasRow : String → ℕ → List Job → Type 0
HasRow key t jobs = (j : Job) × (row_of key jobs ≡ some j) × (j.due_at ≤ t)

-- A change that keeps the key and makes the row due by `t`.
abbrev pub DueAfter : ℕ → (Job → Job) → Type 0
DueAfter t change = (j : Job) → ((change j).key ≡ j.key) × ((change j).due_at ≤ t)

row_of-update_job :
    (key : String) (change : Job → Job) (jobs : List Job) {j : Job} (t : ℕ)
    → DueAfter t change
    → row_of key jobs ≡ some j
    → HasRow key t (update_job key change jobs)
unfolding row_of update_job
row_of-update_job key change [] t due found = cc
row_of-update_job key change (k ∷ ks) {j} t due found = elim (Bool-cases (same k.key key)) [
  | inl this ↦ (change k, ground (arith, due k), (due k).1)
  | inr other ↦
      let (row, is, early) = row_of-update_job key change ks t due (rw (row_of, other) at found) in
      (row, ground arith, early)
]

row_of-insert :
    (key : String) (jobs : List Job) (t now : ℕ)
    → row_of key jobs ≡ none
    → row_of key (jobs ++ (new_job key t now ∷ [])) ≡ some (new_job key t now)
unfolding row_of
row_of-insert key [] t now missing = ground arith
row_of-insert key (k ∷ ks) t now missing =
    ground (arith, λ (p : row_of key ks ≡ none). row_of-insert key ks t now p)

pub upsert_job-HasRow :
    (key : String) (change : Job → Job) (jobs : List Job) (t now : ℕ)
    → DueAfter t change
    → HasRow key t (upsert_job (new_job key t now) change jobs)
unfolding upsert_job
upsert_job-HasRow key change jobs t now due = elim (Option-cases (row_of key jobs)) [
  | inl missing ↦ (
    new_job key t now,
    rw (upsert_job, missing) (row_of-insert key jobs t now missing),
    omega arith,
  )
  | inr (j, found) ↦ rw (upsert_job, found) (row_of-update_job key change jobs t due found)
]

early-HasRow :
    (key : String) (jobs : List Job) (t : ℕ)
    → is_early_enough (read_job key jobs) t ≡ true
    → HasRow key t jobs
unfolding read_job
early-HasRow key jobs t early = elim (Option-cases (row_of key jobs)) [
  | inl missing ↦ absurd (ground arith)
  | inr (j, found) ↦ (j, found, ground arith)
]

pub DueBy-alarm :
    (s : Scheduler) (key : String) (t : ℕ) → IsArmed s → HasRow key t s.jobs → DueBy t s.alarm
DueBy-alarm s key t armed (j, found, early) =
    subst (DueBy t) (sym armed) (read_next_due_at-row key s.jobs t found early)

-- After a job was deferred to a time the alarm is set at or before the time of its bucket, it is
-- still that of the first job, and the job has a row that is due by then.
pub defer-DueBy :
    (key : String) (due_at now : ℕ) (s : Scheduler)
    → IsArmed s
    → IsArmed (defer key due_at now s)
      × DueBy (maintenance_job_due_at key due_at) (defer key due_at now s).alarm
      × HasRow key (maintenance_job_due_at key due_at) (defer key due_at now s).jobs
unfolding defer rearm
defer-DueBy key due_at now s armed =
    elim (Bool-cases (is_early_enough (read_job key s.jobs) (maintenance_job_due_at key due_at))) [
      | inl early ↦
          let row = early-HasRow key s.jobs _ early in
          rw (defer, early) (armed, DueBy-alarm s key _ armed row, row)
      | inr late ↦
          let row =
            upsert_job-HasRow key (sooner (maintenance_job_due_at key due_at) now) s.jobs
              (maintenance_job_due_at key due_at) now (λ j. (refl, omega arith)) in
          let s' = record s {
            jobs =
                upsert_job (new_job key (maintenance_job_due_at key due_at) now)
                  (sooner (maintenance_job_due_at key due_at) now) s.jobs;
          } in
          rw (defer, late)
            (rearm-IsArmed s', DueBy-alarm (rearm s') key _ (rearm-IsArmed s') row, row)
    ]

row_of-update_other :
    (key other : String) (change : Job → Job) (jobs : List Job)
    → same other key ≡ false
    → ((j : Job) → (change j).key ≡ j.key)
    → row_of key (update_job other change jobs) ≡ row_of key jobs
unfolding row_of update_job
row_of-update_other key other change [] apart keeps = refl
row_of-update_other key other change (j ∷ js) apart keeps =
    let rest = row_of-update_other key other change js apart keeps in ground (arith, rest, keeps j)

row_of-add_other :
    (key : String) (new : Job) (jobs : List Job)
    → same new.key key ≡ false
    → row_of key (jobs ++ (new ∷ [])) ≡ row_of key jobs
unfolding row_of
row_of-add_other key new [] apart = ground arith
row_of-add_other key new (j ∷ js) apart = ground (arith, row_of-add_other key new js apart)

-- Deferring the job of another key leaves the row of a key as it is.
pub row_of-defer :
    (key other : String) (due_at now : ℕ) (s : Scheduler)
    → same other key ≡ false
    → row_of key (defer other due_at now s).jobs ≡ row_of key s.jobs
unfolding defer rearm upsert_job
row_of-defer key other due_at now s apart =
    let t = maintenance_job_due_at other due_at in
    elim (Bool-cases (is_early_enough (read_job other s.jobs) t)) [
      | inl early ↦ rw (defer, early) refl
      | inr late ↦ elim (Bool-cases (is_some (row_of other s.jobs))) [
        | inl there ↦
            rw (defer, late)
              (rw there (row_of-update_other key other (sooner t now) s.jobs apart (λ j. refl)))
        | inr missing ↦
            rw (defer, late) (rw missing (row_of-add_other key (new_job other t now) s.jobs apart))
      ]
    ]
