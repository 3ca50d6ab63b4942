-- ===== src/Blobs/Accounting.antt =====
-- The storage counter of the vault's row and the sizes of its blob records, for
-- src/sync-coordinator/application/services/blob-record-operations.ts.
use synch_api.Prelude.{
  ℕ, ◌+◌, ◌≡◌, inl, inr, sym, subst, Bool, none, some, arith, ltb, if◌then◌else◌, Bool-cases,
}
use synch_api.Store.Rows.{Blob, Database}
use synch_api.Store.Blobs.{delete_where}
use synch_api.Store.Sizes.{total_size, total_size-delete_where}
use synch_api.Store.State.{State, sub_storage_used_bytes}
use synch_api.Blobs.Records.{account_for_deleted_blobs}

abbrev pub Balances : State → ℕ → Type 0
Balances none total = total ≡ 0
Balances (some st) total = st.storage_used_bytes ≡ total

-- The counter of the vault's row is the total of the records; without a row there are no bytes.
abbrev pub IsAccounted : Database → Type 0
IsAccounted db = Balances db.state (total_size db.blobs)

Balances-give_back :
    (state : State) (kept gone : ℕ)
    → Balances state (kept + gone)
    → Balances (if ltb 0 gone then sub_storage_used_bytes gone state else state) kept
unfolding sub_storage_used_bytes
Balances-give_back none kept gone h = elim (Bool-cases (ltb 0 gone)) [
  | inl e ↦ rw e (omega arith)
  | inr e ↦ rw e (omega arith)
]
Balances-give_back (some st) kept gone h = elim (Bool-cases (ltb 0 gone)) [
  | inl e ↦ rw e (omega arith)
  | inr e ↦ rw e (ground arith)
]

pub account_for_deleted_blobs-IsAccounted :
    (db : Database) (p : Blob → Bool)
    → IsAccounted db
    → IsAccounted (account_for_deleted_blobs db (delete_where p db.blobs))
unfolding account_for_deleted_blobs
account_for_deleted_blobs-IsAccounted db p h =
    Balances-give_back db.state (total_size (delete_where p db.blobs).0)
      (total_size (delete_where p db.blobs).1)
      (subst (Balances db.state) (sym (total_size-delete_where p db.blobs)) h)
