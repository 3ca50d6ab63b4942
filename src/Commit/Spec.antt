-- ===== src/Commit/Spec.antt =====
-- What a client may know of a vault, and how a batch of mutations changes that: the rows without
-- who wrote them and when, under the cursor, and which blobs have a record. The table of versions and
-- what a record says are left out.
use synch_api.Prelude.{
  ℕ, ◌+◌, ◌≡◌, ◌≢◌, ◌⊎◌, String, Bool, true, false, Option, none, some, List, [], ◌∷◌,
  if◌then◌else◌, same, trim,
}
use mathlib.Core.Option
use synch_api.Policy.Entry.{is_delete}
use synch_api.Store.Rows.{Entry, Database}
use synch_api.Commit.Records.{has_blob, named_blob, IsUsable}
use synch_api.Store.Entries.{read_entry}
use synch_api.Store.Versions.{contains, add_distinct}
use synch_api.Commit.Batch.{
  Mutation, RejectionCode, blob_not_found, blob_not_staged, duplicate_mutation_id, stale,
  BatchResult, accepted, rejected,
}

pub record Doc : Type 0 where
  pub revision : ℕ
  pub blob_id : Option String
  pub encrypted_metadata : String
  pub deleted : Bool
  pub updated_seq : ℕ
  pub last_mutation_id : Option String

-- The documents of a vault by their ids.
pub record Sheet : Type 0 where
  pub cursor : ℕ
  pub doc : String → Option Doc
  pub has_blob : String → Bool

abbrev pub doc_of : Entry → Doc
doc_of e = record {
  revision = e.revision;
  blob_id = e.blob_id;
  encrypted_metadata = e.encrypted_metadata;
  deleted = e.deleted;
  updated_seq = e.updated_seq;
  last_mutation_id = e.last_mutation_id;
}

abbrev pub view : ℕ → Database → Sheet
view cursor db = record {
  cursor = cursor;
  doc = λ id. Option.map doc_of (read_entry id db.entries);
  has_blob = λ id. has_blob id db.blobs;
}

abbrev pub revision_at : Option Doc → ℕ
revision_at none = 0
revision_at (some d) = d.revision

abbrev pub last_at : Option Doc → Option String
last_at none = none
last_at (some d) = d.last_mutation_id

abbrev pub Same : Sheet → Sheet → Type 0
Same v v' =
    (v'.cursor ≡ v.cursor)
    × ((id : String) → v'.doc id ≡ v.doc id)
    × ((id : String) → v'.has_blob id ≡ v.has_blob id)

-- A mutation that the document has seen last is answered as it was then.
abbrev pub Repeats : Mutation → Sheet → BatchResult → Sheet → Type 0
Repeats m v answer v' =
    (d : Doc) × (v.doc m.entry_id ≡ some d)
    × (d.last_mutation_id ≡ some (trim m.mutation_id))
    × (answer ≡ accepted (trim m.mutation_id) d.updated_seq m.entry_id d.revision)
    × Same v v'

-- A mutation is refused for its id, which came before in the batch, for its base, which is not the
-- document's revision, or for the blob that it would name, which is unavailable or has no record.
abbrev pub Reason : Mutation → List String → List String → Sheet → RejectionCode → Type 0
Reason m unavailable seen v duplicate_mutation_id = contains (trim m.mutation_id) seen ≡ true
Reason m unavailable seen v (stale expected received) =
    (expected ≡ revision_at (v.doc m.entry_id))
    × (received ≡ m.base_revision)
    × (expected ≢ received)
Reason m unavailable seen v blob_not_found =
    (id : String) × (named_blob m ≡ some id) × (contains id unavailable ≡ true)
Reason m unavailable seen v blob_not_staged =
    (id : String) × (named_blob m ≡ some id)
    × (contains id unavailable ≡ false)
    × (v.has_blob id ≡ false)

abbrev pub Refuses : Mutation → List String → List String → Sheet → BatchResult → Sheet → Type 0
Refuses m unavailable seen v answer v' =
    (code : RejectionCode) × Reason m unavailable seen v code
    × (answer ≡ rejected (trim m.mutation_id) m.entry_id code)
    × Same v v'

abbrev pub written : Mutation → ℕ → Doc
written m cursor = record {
  revision = m.base_revision + 1;
  blob_id = if is_delete m.op then none else m.blob_id;
  encrypted_metadata = m.encrypted_metadata;
  deleted = is_delete m.op;
  updated_seq = cursor;
  last_mutation_id = some (trim m.mutation_id);
}

-- A mutation on the current revision that is new to the document, and whose blob, if it would name
-- one, is available and has a record, is written under the next cursor.
abbrev pub Writes : Mutation → List String → Sheet → BatchResult → Sheet → Type 0
Writes m unavailable v answer v' =
    IsUsable unavailable v.has_blob (named_blob m)
    × (revision_at (v.doc m.entry_id) ≡ m.base_revision)
    × (last_at (v.doc m.entry_id) ≢ some (trim m.mutation_id))
    × (answer ≡ accepted (trim m.mutation_id) (v.cursor + 1) m.entry_id (m.base_revision + 1))
    × (v'.cursor ≡ v.cursor + 1)
    × ((id : String) → v'.has_blob id ≡ v.has_blob id)
    × ((id : String)
        → v'.doc id ≡ (if same m.entry_id id then some (written m (v.cursor + 1)) else v.doc id))

-- A mutation whose id came before in the batch is refused, and no other is refused for its id.
abbrev pub Serves : Mutation → List String → List String → Sheet → BatchResult → Sheet → Type 0
Serves m unavailable seen v answer v' =
    Refuses m unavailable seen v answer v'
    ⊎ ((contains (trim m.mutation_id) seen ≡ false)
        × (Repeats m v answer v' ⊎ Writes m unavailable v answer v'))

-- The mutations of a batch are served one after the other, each with one answer.
abbrev pub ServesAll :
    List Mutation → List String → List String → Sheet → List BatchResult → Sheet → Type 0
ServesAll [] unavailable seen v [] v' = Same v v'
ServesAll [] unavailable seen v (a ∷ answers) v' = ⊥
ServesAll (m ∷ ms) unavailable seen v [] v' = ⊥
ServesAll (m ∷ ms) unavailable seen v (a ∷ answers) v' =
    (u : Sheet) × Serves m unavailable seen v a u
    × ServesAll ms unavailable (add_distinct (trim m.mutation_id) seen) u answers v'
