-- ===== src/Store/Sizes.antt =====
-- The bytes that the blob records stand for.
use synch_api.Prelude.{ℕ, ◌+◌, ◌≡◌, refl, String, Bool, Option, none, some, List, [], ◌∷◌, arith}
use synch_api.Policy.BlobGc.{BlobState}
use synch_api.Store.Rows.{Blob}
use synch_api.Store.Blobs.{read_blob, persist_stage, update_state, delete_where}

-- `deleted.reduce((total, blob) => total + blob.size_bytes, 0)`
unfoldable pub total_size : List Blob → ℕ
total_size [] = 0
total_size (b ∷ bs) = b.size_bytes + total_size bs

pub total_size-update_state :
    (id : String) (state : BlobState) (deadline : Option ℕ) (bs : List Blob)
    → total_size (update_state id state deadline bs) ≡ total_size bs
unfolding total_size update_state
total_size-update_state id state deadline [] = refl
total_size-update_state id state deadline (b ∷ bs) =
    ground (arith, total_size-update_state id state deadline bs)

-- The room that an upload takes: all of it if it is new, none if it has a record.
abbrev pub room : Option Blob → ℕ → ℕ
room none size = size
room (some b) size = 0

pub total_size-persist_stage :
    (id : String) (size now deadline : ℕ) (bs : List Blob)
    → total_size (persist_stage id size now deadline bs)
      ≡ total_size bs + room (read_blob id bs) size
unfolding total_size persist_stage read_blob
total_size-persist_stage id size now deadline [] = ground arith
total_size-persist_stage id size now deadline (b ∷ bs) =
    ground (arith, total_size-persist_stage id size now deadline bs)

pub total_size-delete_where :
    (p : Blob → Bool) (bs : List Blob)
    → total_size (delete_where p bs).0 + total_size (delete_where p bs).1 ≡ total_size bs
unfolding total_size delete_where
total_size-delete_where p [] = refl
total_size-delete_where p (b ∷ bs) = ground (arith, total_size-delete_where p bs)
