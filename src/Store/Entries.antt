-- ===== src/Store/Entries.antt =====
-- src/sync-coordinator/adapters/outbound/sqlite/entry-store.ts: the current entries by their
-- primary key.
use synch_api.Prelude.{
  ◌≡◌, inl, inr, refl, String, Option, none, some, List, [], ◌∷◌, arith, if◌then◌else◌, same, All,
  Bool-cases, ℕ,
}
use synch_api.Store.Rows.{Entry}

-- SELECT … WHERE entry_id = ? LIMIT 1, for `readEntry` and `readMutationEntry` alike.
unfoldable pub read_entry : String → List Entry → Option Entry
read_entry id [] = none
read_entry id (e ∷ es) = let rest = read_entry id es in if same e.entry_id id then some e else rest

-- `current?.revision ?? 0` of a row that was read.
abbrev pub revision_in : Option Entry → ℕ
revision_in none = 0
revision_in (some e) = e.revision

-- INSERT … ON CONFLICT (entry_id) DO UPDATE: every column but the key is set anew.
unfoldable pub upsert_entry : Entry → List Entry → List Entry
upsert_entry row [] = row ∷ []
upsert_entry row (e ∷ es) =
    let rest = upsert_entry row es in if same e.entry_id row.entry_id then row ∷ es else e ∷ rest

-- Both reads of a written table, in one equation.
pub read_entry-upsert_entry :
    (id : String) (row : Entry) (es : List Entry)
    → read_entry id (upsert_entry row es)
      ≡ (if same row.entry_id id then some row else read_entry id es)
unfolding read_entry upsert_entry
read_entry-upsert_entry id row [] = refl
read_entry-upsert_entry id row (e ∷ es) = ground (arith, read_entry-upsert_entry id row es)

module _ {κ} (P : Entry → Type κ) where
  -- What holds of every row and of the row that is written holds of the written table.
  pub All-upsert_entry :
      (row : Entry) (es : List Entry) → P row → All P es → All P (upsert_entry row es)
  unfolding upsert_entry
  All-upsert_entry row [] p h = (p, tt)
  All-upsert_entry row (e ∷ es) p h = elim (Bool-cases (same e.entry_id row.entry_id)) [
    | inl hit ↦ rw hit (p, h.1)
    | inr miss ↦ rw miss (h.0, All-upsert_entry row es p h.1)
  ]

pub read_entry-id :
    (id : String) (es : List Entry) {e : Entry} → read_entry id es ≡ some e → e.entry_id ≡ id
unfolding read_entry
read_entry-id id [] h = cc
read_entry-id id (x ∷ es) {e} h =
    ground (arith, λ (p : read_entry id es ≡ some e). read_entry-id id es p)
