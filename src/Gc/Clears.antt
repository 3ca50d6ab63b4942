-- ===== src/Gc/Clears.antt =====
-- A collection that nothing interrupts and that the object store does in full.
use synch_api.Prelude.{
  ℕ, zero, suc, ◌≤◌, ◌≡◌, inl, inr, refl, sym, subst, ap, ◌∙◌, String, Bool, true, ◌&&◌, ◌||◌,
  Option, some, List, [], ◌∷◌, arith, Bool-cases, Option-cases, truthy, or_else, same, same_self,
  select, take, length, map, All, All-mono,
}
use synch_api.Store.Rows.{Blob, Database}
use synch_api.Store.References.{read_blob_reference_facts}
use synch_api.Store.State.{read_vault_id}
use synch_api.Store.Versions.{contains}
use synch_api.Store.Blobs.{delete_where, delete_collectible_blobs, collectible_blob}
use synch_api.Blobs.Records.{delete_collectible_blob_records, account_for_deleted_blobs}
use synch_api.Blobs.Collect.{collectible_blob-decide}
use synch_api.Gc.Queries.{
  Candidate, candidates, insert_blob, order_blobs, collected_first, list_collectible_blobs,
}
use synch_api.Gc.Keeps.{run_gc_complete-db}
use synch_api.Gc.Runs.{
  Vault, answered, begun, Ended, BatchOutcome, deleted, batch_failed, store_failed,
  RunBlobGcOptions, delete_collectible_batch, delete_records, succeeded_blob_ids, blob_ids,
  is_collectible, gc_batch_size, run_gc_start, run_gc_finish, run_gc_end,
}

take-all {ℓ} : {A : Type ℓ} (n : ℕ) (xs : List A) → length xs ≤ n → take n xs ≡ xs
take-all zero [] h = refl
take-all zero (x ∷ xs) h = absurd (omega arith)
take-all (suc n) [] h = refl
take-all (suc n) (x ∷ xs) h = ap (λ (ys : List _). x ∷ ys) (take-all n xs (omega arith))

abbrev ids_of : List Blob → List String
ids_of bs = map (λ (b : Blob). b.blob_id) bs

contains-insert_blob :
    (id : String) (b : Blob) (bs : List Blob)
    → contains id (ids_of (insert_blob b bs)) ≡ (same b.blob_id id || contains id (ids_of bs))
unfolding contains insert_blob
contains-insert_blob id b [] = refl
contains-insert_blob id b (x ∷ xs) = ground (arith, contains-insert_blob id b xs)

contains-order_blobs :
    (id : String) (bs : List Blob) → contains id (ids_of (order_blobs bs)) ≡ contains id (ids_of bs)
unfolding contains order_blobs
contains-order_blobs id [] = refl
contains-order_blobs id (b ∷ bs) =
    contains-insert_blob id b (order_blobs bs)
    ∙ ap (λ (c : Bool). same b.blob_id id || c) (contains-order_blobs id bs)

length-insert_blob : (b : Blob) (bs : List Blob) → length (insert_blob b bs) ≡ suc (length bs)
unfolding insert_blob
length-insert_blob b [] = refl
length-insert_blob b (x ∷ xs) = ground (arith, length-insert_blob b xs)

length-order_blobs : (bs : List Blob) → length (order_blobs bs) ≡ length bs
unfolding order_blobs
length-order_blobs [] = refl
length-order_blobs (b ∷ bs) = length-insert_blob b (order_blobs bs) ∙ ap suc (length-order_blobs bs)

module _ (c : Blob → Bool) where
  abbrev Named : List String → Blob → Type 0
  Named ids b = c b ≡ true → contains b.blob_id ids ≡ true

  -- What a test selects is named by the ids of the selection.
  select-Named : (bs : List Blob) → All (Named (ids_of (select c bs))) bs
  unfolding contains
  select-Named [] = tt
  select-Named (b ∷ bs) = elim (Bool-cases (c b)) [
    | inl hit ↦
        subst (λ (l : List Blob). All (Named (ids_of l)) (b ∷ bs)) {x = b ∷ select c bs}
          (ground arith)
          (
            (λ p. ground (arith, same_self b.blob_id)),
            All-mono {P = Named (ids_of (select c bs))} {Q = Named (ids_of (b ∷ select c bs))} bs
                (λ x named p. ground (arith, named p)) (select-Named bs),
          )
    | inr miss ↦
        subst (λ (l : List Blob). All (Named (ids_of l)) (b ∷ bs)) {x = select c bs} (ground arith)
          ((λ p. absurd (ground arith)), select-Named bs)
  ]

  -- Nothing is left that the test selects, once all that is named went.
  select-delete_where :
      (ids : List String) (bs : List Blob)
      → All (Named ids) bs
      → select c (delete_where (λ b. contains b.blob_id ids && c b) bs).0 ≡ []
  unfolding delete_where
  select-delete_where ids [] h = refl
  select-delete_where ids (b ∷ bs) h = ground (arith, h.0, select-delete_where ids bs h.1)

  select-none : (bs : List Blob) → All (Named []) bs → select c bs ≡ []
  unfolding contains
  select-none [] h = refl
  select-none (b ∷ bs) h = ground (arith, h.0, select-none bs h.1)

abbrev pub due : Database → ℕ → List Blob
due db now = select (collectible_blob db now) db.blobs

-- The domain agrees with the query on all that it lists, so the filter drops nothing.
select-candidates :
    (db : Database) (now : ℕ) (bs : List Blob)
    → All (λ b. collectible_blob db now b ≡ true) bs
    → select (is_collectible now) (candidates db now bs) ≡ candidates db now bs
select-candidates db now [] h = refl
select-candidates db now (b ∷ bs) h =
    let decided = (collectible_blob-decide db now b).0 h.0 in
    ground (arith, decided, select-candidates db now bs h.1)

blob_ids-candidates :
    (db : Database) (now : ℕ) (bs : List Blob) → blob_ids (candidates db now bs) ≡ ids_of bs
blob_ids-candidates db now [] = refl
blob_ids-candidates db now (b ∷ bs) =
    ap (λ (ids : List String). b.blob_id ∷ ids) (blob_ids-candidates db now bs)

succeeded-none :
    (object_key : String → String) (cs : List Candidate)
    → succeeded_blob_ids object_key [] cs ≡ blob_ids cs
unfolding contains
succeeded-none object_key [] = refl
succeeded-none object_key (c ∷ cs) =
    ap (λ (ids : List String). c.blob.blob_id ∷ ids) (succeeded-none object_key cs)

All-select_self : (c : Blob → Bool) (bs : List Blob) → All (λ b. c b ≡ true) (select c bs)
All-select_self c [] = tt
All-select_self c (b ∷ bs) = elim (Bool-cases (c b)) [
  | inl hit ↦ rw hit (hit, All-select_self c bs)
  | inr miss ↦ rw miss (All-select_self c bs)
]

All-insert_blob :
    (P : Blob → Type 0) (b : Blob) (bs : List Blob) → P b → All P bs → All P (insert_blob b bs)
unfolding insert_blob
All-insert_blob P b [] p h = (p, tt)
All-insert_blob P b (x ∷ xs) p h = elim (Bool-cases (collected_first b x)) [
  | inl before ↦ rw before (p, h)
  | inr after ↦ rw after (h.0, All-insert_blob P b xs p h.1)
]

All-order_blobs : (P : Blob → Type 0) (bs : List Blob) → All P bs → All P (order_blobs bs)
unfolding order_blobs
All-order_blobs P [] h = tt
All-order_blobs P (b ∷ bs) h = All-insert_blob P b (order_blobs bs) h.0 (All-order_blobs P bs h.1)

-- The ids that a run asks the store to delete are those of all collectible records.
batch-ids :
    (db : Database) (now : ℕ)
    → length (due db now) ≤ gc_batch_size
    → blob_ids (select (is_collectible now) (list_collectible_blobs db now gc_batch_size))
      ≡ ids_of (order_blobs (due db now))
unfolding list_collectible_blobs
batch-ids db now few =
    let all =
      take-all gc_batch_size (order_blobs (due db now))
        (subst (λ (n : ℕ). n ≤ gc_batch_size) (sym (length-order_blobs (due db now))) few) in
    ap (λ (bs : List Blob). blob_ids (select (is_collectible now) (candidates db now bs))) all
    ∙ ap blob_ids (
        select-candidates db now (order_blobs (due db now))
          (All-order_blobs _ (due db now) (All-select_self (collectible_blob db now) db.blobs)))
    ∙ blob_ids-candidates db now (order_blobs (due db now))

-- The records to collect are all named by their ids in the order of the query.
ordered-Named :
    (db : Database) (now : ℕ)
    → All (Named (collectible_blob db now) (ids_of (order_blobs (due db now)))) db.blobs
ordered-Named db now =
    All-mono {P = Named (collectible_blob db now) (ids_of (due db now))}
      {Q = Named (collectible_blob db now) (ids_of (order_blobs (due db now)))} db.blobs
      (λ b named p. contains-order_blobs b.blob_id (due db now) ∙ named p)
      (select-Named (collectible_blob db now) db.blobs)

delete_records-clears :
    (db : Database) (now : ℕ) (ids : List String)
    → All (Named (collectible_blob db now) ids) db.blobs
    → due (delete_records ids now db).0 now ≡ []
unfolding delete_collectible_blob_records delete_collectible_blobs account_for_deleted_blobs
    collectible_blob read_blob_reference_facts
delete_records-clears db now [] h = select-none (collectible_blob db now) db.blobs h
delete_records-clears db now (i ∷ is) h =
    select-delete_where (collectible_blob db now) (i ∷ is) db.blobs h

batch-clears :
    (object_key : String → String) (db : Database) (now : ℕ) (cs : List Candidate)
    → All (Named (collectible_blob db now) (blob_ids cs)) db.blobs
    → due (delete_collectible_batch object_key (answered []) cs now db).0 now ≡ []
unfolding delete_collectible_batch
batch-clears object_key db now [] h = select-none (collectible_blob db now) db.blobs h
batch-clears object_key db now (c ∷ cs) h =
    delete_records-clears db now (succeeded_blob_ids object_key [] (c ∷ cs)) (
      subst (λ (ids : List String). All (Named (collectible_blob db now) ids) db.blobs)
        (sym (succeeded-none object_key (c ∷ cs))) h)

begun-candidates :
    (vault_id : Option String) (may_collect : String → Bool) (now clock : ℕ) (v v' : Vault)
    (id : String) (cs : List Candidate)
    → run_gc_start vault_id may_collect now clock v ≡ (v', begun id cs)
    → cs ≡ select (is_collectible now) (list_collectible_blobs v'.db now gc_batch_size)
unfolding run_gc_start
begun-candidates vault_id may_collect now clock v v' id cs e =
    elim (Option-cases (truthy (some (or_else vault_id (or_else (read_vault_id v.db.state) ""))))) [
      | inl absent ↦ absurd (ground arith)
      | inr (own, found) ↦ elim (Bool-cases (may_collect own)) [
        | inl may ↦ ground (arith, found, may)
        | inr held ↦ absurd (ground (arith, found, held))
      ]
    ]

-- What a run does after the deletion makes no record collectible.
due-run_gc_end :
    (options : RunBlobGcOptions) (now : ℕ) (w v : Vault) (outcome : BatchOutcome) (ended : Ended)
    → run_gc_end options now w outcome ≡ (v, ended)
    → due v.db now ≡ due w.db now
unfolding collectible_blob read_blob_reference_facts
due-run_gc_end options now w v (deleted count) ended e =
    ap (λ (r : Vault × Ended). due r.0.db now) (sym e)
    ∙ ap (λ (db : Database). due db now) (run_gc_complete-db options count now w)
due-run_gc_end options now w v (batch_failed keys count) ended e =
    ap (λ (r : Vault × Ended). due r.0.db now) (sym e)
due-run_gc_end options now w v store_failed ended e =
    ap (λ (r : Vault × Ended). due r.0.db now) (sym e)

-- Where at most a batch of records is to be collected, a collection that nothing interrupts and
-- whose objects all go leaves no record to collect.
pub run_gc-clears :
    (vault_id : Option String) (may_collect : String → Bool) (object_key : String → String)
    (options : RunBlobGcOptions) (now clock : ℕ) (v v' v'' : Vault) (id : String)
    (cs : List Candidate) (ended : Ended)
    → run_gc_start vault_id may_collect now clock v ≡ (v', begun id cs)
    → length (due v'.db now) ≤ gc_batch_size
    → run_gc_finish object_key options now (answered []) cs v' ≡ (v'', ended)
    → due v''.db now ≡ []
unfolding run_gc_finish
run_gc-clears vault_id may_collect object_key options now clock v v' v'' id cs ended started few
      finished =
    let (db, outcome) = delete_collectible_batch object_key (answered []) cs now v'.db in
    due-run_gc_end options now (record v' { db = db }) v'' outcome ended finished
    ∙ batch-clears object_key v'.db now cs (
        subst (λ (ids : List String). All (Named (collectible_blob v'.db now) ids) v'.db.blobs)
          (sym named) (ordered-Named v'.db now))
  where
    named : blob_ids cs ≡ ids_of (order_blobs (due v'.db now))
    named =
        ap blob_ids (begun-candidates vault_id may_collect now clock v v' id cs started)
        ∙ batch-ids v'.db now few
