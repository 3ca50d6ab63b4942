-- ===== src/Store/Liveness.antt =====
-- What the entries may rely on: a blob that an entry names has a record, and the record is live.
use synch_api.Prelude.{
  ℕ, ◌≡◌, ◌≢◌, refl, String, Bool, true, false, Option, none, some, List, [], ◌∷◌, arith,
  if◌then◌else◌, same, same?, truthy, All, All-mono, Bool-cases, inl, inr,
}
use synch_api.Policy.BlobGc.{BlobState, staged, live}
use synch_api.Store.Rows.{Entry, Blob}
use synch_api.Store.References.{current_blob_reference}
use synch_api.Store.Blobs.{read_blob, update_state, delete_where, persist_stage}

abbrev pub state_in : Option Blob → Option BlobState
state_in none = none
state_in (some b) = some b.state

abbrev pub state_of : String → List Blob → Option BlobState
state_of id bs = state_in (read_blob id bs)

-- The state that an update of a row leaves, if there is one.
abbrev pub restated : BlobState → Option BlobState → Option BlobState
restated state none = none
restated state (some _) = some state

pub state_of-update_state :
    (j i : String) (state : BlobState) (deadline : Option ℕ) (bs : List Blob)
    → state_of j (update_state i state deadline bs)
      ≡ (if same i j then restated state (state_of j bs) else state_of j bs)
unfolding read_blob update_state
state_of-update_state j i state deadline [] = ground arith
state_of-update_state j i state deadline (b ∷ bs) =
    ground (arith, state_of-update_state j i state deadline bs)

pub state_of-persist_stage :
    (j i : String) (size now deadline : ℕ) (bs : List Blob)
    → state_of j (persist_stage i size now deadline bs)
      ≡ (if same i j then some staged else state_of j bs)
unfolding read_blob persist_stage
state_of-persist_stage j i size now deadline [] = ground arith
state_of-persist_stage j i size now deadline (b ∷ bs) =
    ground (arith, state_of-persist_stage j i size now deadline bs)

abbrev pub LiveFor : Option String → List Blob → Type 0
LiveFor none bs = Unit
LiveFor (some id) bs = state_of id bs ≡ some live

-- The blob that the entry names, if it names one, is live.
abbrev pub HasLiveBlob : List Blob → Entry → Type 0
HasLiveBlob bs e = LiveFor (truthy e.blob_id) bs

-- An update of a blob that the reference is not about.
LiveFor-update_other :
    (o : Option String) (id : String) (state : BlobState) (deadline : Option ℕ) (bs : List Blob)
    → same? o id ≡ false
    → LiveFor (truthy o) bs
    → LiveFor (truthy o) (update_state id state deadline bs)
LiveFor-update_other none id state deadline bs away h = tt
LiveFor-update_other (some j) id state deadline bs away h =
    ground (arith, state_of-update_state j id state deadline bs)

-- An update to live, of whichever blob.
LiveFor-update_live :
    (o : Option String) (id : String) (bs : List Blob)
    → LiveFor (truthy o) bs
    → LiveFor (truthy o) (update_state id live none bs)
LiveFor-update_live none id bs h = tt
LiveFor-update_live (some j) id bs h = ground (arith, state_of-update_state j id live none bs)

-- An update of a blob that is not live.
LiveFor-update_dead :
    (o : Option String) (id : String) (state : BlobState) (deadline : Option ℕ) (bs : List Blob)
    → state_of id bs ≢ some live
    → LiveFor (truthy o) bs
    → LiveFor (truthy o) (update_state id state deadline bs)
LiveFor-update_dead none id state deadline bs dead h = tt
LiveFor-update_dead (some j) id state deadline bs dead h =
    ground (arith, state_of-update_state j id state deadline bs)

-- The invariant of the two tables.
abbrev pub AllLive : List Entry → List Blob → Type 0
AllLive es bs = All (HasLiveBlob bs) es

-- A blob that no entry names may change as it likes.
pub AllLive-update_state :
    (id : String) (state : BlobState) (deadline : Option ℕ) (es : List Entry) (bs : List Blob)
    → current_blob_reference id es ≡ false
    → AllLive es bs
    → AllLive es (update_state id state deadline bs)
unfolding current_blob_reference
AllLive-update_state id state deadline [] bs free h = tt
AllLive-update_state id state deadline (e ∷ es) bs free h = (
  LiveFor-update_other e.blob_id id state deadline bs (ground arith) h.0,
  AllLive-update_state id state deadline es bs (ground arith) h.1,
)

pub AllLive-update_live :
    (id : String) (es : List Entry) (bs : List Blob)
    → AllLive es bs
    → AllLive es (update_state id live none bs)
AllLive-update_live id es bs = All-mono es (λ e. LiveFor-update_live e.blob_id id bs)

pub AllLive-update_dead :
    (id : String) (state : BlobState) (deadline : Option ℕ) (es : List Entry) (bs : List Blob)
    → state_of id bs ≢ some live
    → AllLive es bs
    → AllLive es (update_state id state deadline bs)
AllLive-update_dead id state deadline es bs dead =
    All-mono es (λ e. LiveFor-update_dead e.blob_id id state deadline bs dead)

LiveFor-persist_stage :
    (o : Option String) (id : String) (size now deadline : ℕ) (bs : List Blob)
    → same? o id ≡ false
    → LiveFor (truthy o) bs
    → LiveFor (truthy o) (persist_stage id size now deadline bs)
LiveFor-persist_stage none id size now deadline bs away h = tt
LiveFor-persist_stage (some j) id size now deadline bs away h =
    ground (arith, state_of-persist_stage j id size now deadline bs)

pub AllLive-persist_stage :
    (id : String) (size now deadline : ℕ) (es : List Entry) (bs : List Blob)
    → current_blob_reference id es ≡ false
    → AllLive es bs
    → AllLive es (persist_stage id size now deadline bs)
unfolding current_blob_reference
AllLive-persist_stage id size now deadline [] bs free h = tt
AllLive-persist_stage id size now deadline (e ∷ es) bs free h = (
  LiveFor-persist_stage e.blob_id id size now deadline bs (ground arith) h.0,
  AllLive-persist_stage id size now deadline es bs (ground arith) h.1,
)

-- A deletion that spares every row of a blob leaves the blob's state.
pub state_of-delete_where :
    (j : String) (p : Blob → Bool) (bs : List Blob)
    → ((b : Blob) → same b.blob_id j ≡ true → p b ≡ false)
    → state_of j (delete_where p bs).0 ≡ state_of j bs
unfolding read_blob delete_where
state_of-delete_where j p [] spare = refl
state_of-delete_where j p (b ∷ bs) spare =
    ground (arith, state_of-delete_where j p bs spare, spare b)

spares :
    (j : String) (p : Blob → Bool)
    → ((b : Blob) → p b ≡ true → same? (some j) b.blob_id ≡ false)
    → (b : Blob) → same b.blob_id j ≡ true
    → p b ≡ false
spares j p away b hit = elim (Bool-cases (p b)) [
  | inl taken ↦ ground (arith, away b taken)
  | inr kept ↦ kept
]

LiveFor-delete_where :
    (o : Option String) (p : Blob → Bool) (bs : List Blob)
    → ((b : Blob) → p b ≡ true → same? o b.blob_id ≡ false)
    → LiveFor (truthy o) bs
    → LiveFor (truthy o) (delete_where p bs).0
LiveFor-delete_where none p bs away h = tt
LiveFor-delete_where (some j) p bs away h =
    ground (arith, state_of-delete_where j p bs (spares j p away))

-- A deletion that takes no named blob.
pub AllLive-delete_where :
    (p : Blob → Bool) (es : List Entry) (bs : List Blob)
    → ((b : Blob) → p b ≡ true → current_blob_reference b.blob_id es ≡ false)
    → AllLive es bs
    → AllLive es (delete_where p bs).0
unfolding current_blob_reference
AllLive-delete_where p [] bs free h = tt
AllLive-delete_where p (e ∷ es) bs free h = (
  LiveFor-delete_where e.blob_id p bs (λ b taken. ground (arith, free b taken)) h.0,
  AllLive-delete_where p es bs (λ b taken. ground (arith, free b taken)) h.1,
)

LiveFor-persist_dead :
    (o : Option String) (id : String) (size now deadline : ℕ) (bs : List Blob)
    → state_of id bs ≢ some live
    → LiveFor (truthy o) bs
    → LiveFor (truthy o) (persist_stage id size now deadline bs)
LiveFor-persist_dead none id size now deadline bs dead h = tt
LiveFor-persist_dead (some j) id size now deadline bs dead h =
    ground (arith, state_of-persist_stage j id size now deadline bs)

pub AllLive-persist_dead :
    (id : String) (size now deadline : ℕ) (es : List Entry) (bs : List Blob)
    → state_of id bs ≢ some live
    → AllLive es bs
    → AllLive es (persist_stage id size now deadline bs)
AllLive-persist_dead id size now deadline es bs dead =
    All-mono es (λ e. LiveFor-persist_dead e.blob_id id size now deadline bs dead)
