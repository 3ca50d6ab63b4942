-- ===== src/History/Tests.antt =====
-- Pulling a vault of three entries two by two.
use synch_api.Prelude.{
  ℕ, ◌≡◌, ◌++◌, refl, String, false, none, List, [], ◌∷◌, arith, string_dec, same, ◌≢◌, ◌↔◌, length,
  ◌≤◌,
}
use synch_api.Store.Rows.{Entry}
use synch_api.Commit.Cursor.{AllApart}
use synch_api.History.Pages.{
  ListMessage, page_of, rows_after, validate_cursor_range, count_entry_states,
}
use synch_api.History.Ranges.{Within, validate_cursor_range-Within, count_entry_states-rows_after}
use synch_api.History.Continues.{left_by, page_of-rows_after}

abbrev entry : String → ℕ → Entry
entry id seq = record {
  entry_id = id;
  revision = 1;
  blob_id = none;
  encrypted_metadata = "m";
  deleted = false;
  updated_seq = seq;
  updated_at = 500;
  updated_by_user_id = "ada";
  updated_by_local_vault_id = "phone";
  last_mutation_id = none;
}

abbrev entries : List Entry
entries = entry "a" 7 ∷ entry "b" 5 ∷ entry "c" 6 ∷ []

apart_by : (s t : String) → same s t ≡ false → s ≢ t
apart_by s t differ e = ground arith

entries-AllApart : AllApart entries
unfolding string_dec
entries-AllApart = (
  ((apart_by "b" "a" refl, λ h. omega arith), ((apart_by "c" "a" refl, λ h. omega arith), tt)),
  (((apart_by "c" "b" refl, λ h. omega arith), tt), (tt, tt)),
)

abbrev pull : ListMessage
pull = record { since_cursor = 4; target_cursor = none; after = none; limit = 2; entry_ids = none }

page_of-rows_after_example :
    (page_of pull 7 entries).entries ++ left_by pull 7 entries (page_of pull 7 entries)
    ≡ rows_after 4 7 none none entries
page_of-rows_after_example = page_of-rows_after pull 7 entries entries-AllApart (omega arith)

validate_cursor_range-Within_example :
    (validate_cursor_range pull 7 9 ≡ none) ↔ ((4 ≤ 7) × (7 ≤ 9) × Within 4 7 none)
validate_cursor_range-Within_example = validate_cursor_range-Within pull 7 9

count_entry_states-rows_after_example :
    count_entry_states 4 7 none entries ≡ length (rows_after 4 7 none none entries)
count_entry_states-rows_after_example = count_entry_states-rows_after 4 7 none entries
