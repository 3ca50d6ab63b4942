-- ===== src/Store/Rows.antt =====
-- src/db/do/index.ts: the tables that the stores read and write. A table is the list of its rows,
-- oldest first, and NULL is `none`; `deleted` is the Boolean that the stores read from 0 and 1.
use synch_api.Prelude.{ℕ, String, Bool, Option, List, ◌≡◌, refl}
use synch_api.Policy.Entry.{Op, CaptureReason}
use synch_api.Policy.BlobGc.{BlobState}

pub record Entry : Type 0 where
  pub entry_id : String
  pub revision : ℕ
  pub blob_id : Option String
  pub encrypted_metadata : String
  pub deleted : Bool
  pub updated_seq : ℕ
  pub updated_at : ℕ
  pub updated_by_user_id : String
  pub updated_by_local_vault_id : String
  pub last_mutation_id : Option String

pub record EntryVersion : Type 0 where
  pub version_id : String
  pub entry_id : String
  pub source_revision : ℕ
  pub op_type : Op
  pub blob_id : Option String
  pub encrypted_metadata : String
  pub reason : CaptureReason
  pub bucket_start_ms : Option ℕ
  pub captured_at : ℕ
  pub expires_at : ℕ
  pub created_by_user_id : String
  pub created_by_local_vault_id : String

pub record Blob : Type 0 where
  pub blob_id : String
  pub state : BlobState
  pub size_bytes : ℕ
  pub created_at : ℕ
  pub last_uploaded_at : ℕ
  pub delete_after : Option ℕ

-- The row of coordinator_state with id 1.
pub record CoordinatorState : Type 0 where
  pub vault_id : String
  pub current_cursor : ℕ
  pub storage_used_bytes : ℕ
  pub storage_limit_bytes : ℕ
  pub max_file_size_bytes : ℕ
  pub version_history_retention_days : ℕ
  pub last_commit_at : Option ℕ
  pub last_gc_at : Option ℕ
  pub sync_paused_at : Option ℕ
  pub sync_pause_reason : Option String

pub record Database : Type 0 where
  pub entries : List Entry
  pub versions : List EntryVersion
  pub blobs : List Blob
  pub state : Option CoordinatorState

-- What a transaction may throw; a throw rolls the transaction back.
pub data CoordinatorError : Type 0 where
  sync_paused vault_id_mismatch uninitialized sync_state_uninitialized : CoordinatorError
  idempotent_without_entry vault_mismatch : CoordinatorError

pub data Result {ℓ} (A : Type ℓ) : Type ℓ where
  ok : A → Result A
  err : CoordinatorError → Result A

infixl 5 ◌>>=◌
abbrev pub ◌>>=◌ {ℓ κ} : {A : Type ℓ} {B : Type κ} → Result A → (A → Result B) → Result B
ok a >>= f = f a
err e >>= f = err e

-- Where the whole chain succeeds its first step did, and the rest runs on that value.
module _ {A B : Type 0} (rest : A → Result B) where
  pub first_step :
      (first : Result A) {last : B}
      → (first >>= rest) ≡ ok last
      → (value : A) × (first ≡ ok value) × (rest value ≡ ok last)
  first_step (err why) whole = cc
  first_step (ok value) whole = (value, refl, whole)
