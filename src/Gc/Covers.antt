-- ===== src/Gc/Covers.antt =====
-- The time of the next collection against the records that there will be to collect.
use synch_api.Prelude.{
  ℕ, ◌+◌, ◌≤◌, ◌≡◌, inl, inr, refl, sym, subst, String, Bool, true, false, Option, some, List, [],
  ◌∷◌, ◌++◌, arith, Bool-cases, same, leb, min, max, if◌then◌else◌, All,
}
use synch_api.Policy.BlobGc.{
  live, staged, pending_delete, same_state, minimum, earliest_gc_deadline, BlobState,
}
use synch_api.Store.Rows.{Blob, Database}
use synch_api.Store.Blobs.{read_blob}
use synch_api.Gc.Queries.{
  staged_deadlines, pending_deadlines, expiries, least_of, read_gc_deadlines, has_facts_free,
  staged_deadline, pending_deadline,
}
use synch_api.Gc.Runs.{read_next_gc_at}

abbrev From : ℕ → ℕ → Type 0
From t d = t ≤ d

All-append {ℓ κ} :
    {A : Type ℓ} (P : A → Type κ) (xs ys : List A) → All P (xs ++ ys) → All P xs × All P ys
All-append P [] ys h = (tt, h)
All-append P (x ∷ xs) ys h = let (xs', ys') = All-append P xs ys h.1 in ((h.0, xs'), ys')

minimum-le : (d : ℕ) (ds : List ℕ) → minimum d ds ≤ d
unfolding minimum
minimum-le d [] = omega arith
minimum-le d (x ∷ xs) = omega (arith, minimum-le (min d x) xs)

minimum-All : (d : ℕ) (ds : List ℕ) → All (From (minimum d ds)) (d ∷ ds)
unfolding minimum
minimum-All d [] = (omega arith, tt)
minimum-All d (x ∷ xs) =
    let least = minimum-le (min d x) xs in
    (omega (arith, least), (omega (arith, least), (minimum-All (min d x) xs).1))

-- The record `b` has a deadline in the tables at or before which nothing else is ahead.
module _ (db : Database) (now : ℕ) (id : String) (b : Blob) (d t : ℕ)
    (has : b.delete_after ≡ some d) (free : has_facts_free db now b ≡ true) where
  abbrev deadlines : List ℕ
  deadlines =
      staged_deadlines db now db.blobs
      ++ (pending_deadlines db now db.blobs ++ expiries db.versions)

  staged_deadline-From :
      b.state ≡ staged → All (From t) (staged_deadline db now b b.delete_after) → t ≤ d
  staged_deadline-From is low =
      by_deadline (subst (λ (o : Option ℕ). All (From t) (staged_deadline db now b o)) has low)
    where
      by_deadline : All (From t) (staged_deadline db now b (some d)) → t ≤ d
      by_deadline h =
          (subst (λ (c : Bool). All (From t) (if c then d ∷ [] else [])) {y = true}
            (ground (arith, is, free)) h).0

  staged-From :
      (bs : List Blob)
      → read_blob id bs ≡ some b
      → b.state ≡ staged
      → All (From t) (staged_deadlines db now bs)
      → t ≤ d
  unfolding read_blob staged_deadlines
  staged-From [] found is low = cc
  staged-From (x ∷ xs) found is low =
      let (here, rest) =
        All-append (From t) (staged_deadline db now x x.delete_after) (staged_deadlines db now xs)
          low in
      elim (Bool-cases (same x.blob_id id)) [
        | inl this ↦ staged_deadline-From is (
            subst (λ (y : Blob). All (From t) (staged_deadline db now y y.delete_after)) {x = x}
              {y = b} (ground arith) here)
        | inr other ↦ staged-From xs (rw (read_blob, other) at found) is rest
      ]

  pending_deadline-From :
      b.state ≡ pending_delete → All (From t) (pending_deadline db now b b.delete_after) → t ≤ d
  pending_deadline-From is low =
      by_deadline (subst (λ (o : Option ℕ). All (From t) (pending_deadline db now b o)) has low)
    where
      by_deadline : All (From t) (pending_deadline db now b (some d)) → t ≤ d
      by_deadline h =
          (subst (λ (c : Bool). All (From t) (if c then d ∷ [] else [])) {y = true}
            (ground (arith, is, free)) h).0

  pending-From :
      (bs : List Blob)
      → read_blob id bs ≡ some b
      → b.state ≡ pending_delete
      → All (From t) (pending_deadlines db now bs)
      → t ≤ d
  unfolding read_blob pending_deadlines
  pending-From [] found is low = cc
  pending-From (x ∷ xs) found is low =
      let (here, rest) =
        All-append (From t) (pending_deadline db now x x.delete_after) (pending_deadlines db now xs)
          low in
      elim (Bool-cases (same x.blob_id id)) [
        | inl this ↦ pending_deadline-From is (
            subst (λ (y : Blob). All (From t) (pending_deadline db now y y.delete_after)) {x = x}
              {y = b} (ground arith) here)
        | inr other ↦ pending-From xs (rw (read_blob, other) at found) is rest
      ]

  deadlines-From :
      read_blob id db.blobs ≡ some b
      → same_state b.state live ≡ false
      → All (From t) deadlines
      → t ≤ d
  deadlines-From found dead low =
      let (ahead, others) =
        All-append (From t) (staged_deadlines db now db.blobs)
          (pending_deadlines db now db.blobs ++ expiries db.versions) low in
      let (retired, old) =
        All-append (From t) (pending_deadlines db now db.blobs) (expiries db.versions) others in
      by_state b.state refl ahead retired
    where
      by_state :
          (state : BlobState)
          → b.state ≡ state
          → All (From t) (staged_deadlines db now db.blobs)
          → All (From t) (pending_deadlines db now db.blobs)
          → t ≤ d
      by_state staged is ahead retired = staged-From db.blobs found is ahead
      by_state live is ahead retired = absurd (ground arith)
      by_state pending_delete is ahead retired = pending-From db.blobs found is retired

-- The next collection is for now, or at a time when a deadline has come.
abbrev pub InTime : ℕ → ℕ → Option ℕ → Type 0
InTime now d next = (t : ℕ) × (next ≡ some t) × (now ≤ t) × (t ≤ max now d)

InTime-least : (now d m : ℕ) → m ≤ d → InTime now d (earliest_gc_deadline (m ∷ []) now)
unfolding earliest_gc_deadline minimum
InTime-least now d m low = elim (Bool-cases (leb m now)) [
  | inl due ↦ (now, ground (arith, due), omega arith, omega arith)
  | inr later ↦ (m, ground (arith, later), ground (arith, later), omega (arith, low))
]

-- Where there is a record with a deadline for a blob that is not live and that nothing names, a next
-- collection is planned: not before now, and not after both now and the deadline.
pub read_next_gc_at-InTime :
    (db : Database) (now : ℕ) (id : String) (b : Blob) (d : ℕ)
    → read_blob id db.blobs ≡ some b
    → same_state b.state live ≡ false
    → b.delete_after ≡ some d
    → has_facts_free db now b ≡ true
    → InTime now d (read_next_gc_at db now)
unfolding read_next_gc_at read_gc_deadlines
read_next_gc_at-InTime db now id b d found dead has free =
    by_deadlines (deadlines db now id b d 0 has free) refl
  where
    by_deadlines :
        (ds : List ℕ)
        → deadlines db now id b d 0 has free ≡ ds
        → InTime now d (earliest_gc_deadline (least_of ds) now)
    by_deadlines [] is = absurd (
        omega (
          arith,
          deadlines-From db now id b d (d + 1) has free found dead
              (subst (All (From (d + 1))) (sym is) tt),
        ))
    by_deadlines (e ∷ es) is = InTime-least now d (minimum e es) (
        deadlines-From db now id b d (minimum e es) has free found dead
          (subst (All (From (minimum e es))) (sym is) (minimum-All e es)))
