-- ===== src/History/Pages.antt =====
-- `listEntryStates` of src/sync-coordinator/application/services/entry-service.ts and of
-- src/sync-coordinator/adapters/outbound/sqlite/entry-store.ts: the pages that a device pulls. A page
-- holds the rows themselves; `entry_id` is compared by code points, as SQLite's BINARY order does.
use Prim.Native.String.{compare}
use Prim.Native.Nat.{Ordering}
use synch_api.Prelude.{
  ℕ, ◌+◌, String, Bool, true, false, ◌&&◌, ◌||◌, Option, none, some, List, [], ◌∷◌, min, ltb, leb,
  ◌==◌, if◌then◌else◌, take, select, length,
}
use synch_api.Store.Rows.{Entry}
use synch_api.Store.Versions.{contains}

abbrev pub max_entry_state_batch : ℕ
max_entry_state_batch = 500

-- EntryStatePageCursor
pub record PageCursor : Type 0 where
  pub updated_seq : ℕ
  pub entry_id : String

pub record ListMessage : Type 0 where
  pub since_cursor : ℕ
  pub target_cursor : Option ℕ
  pub after : Option PageCursor
  pub limit : ℕ
  pub entry_ids : Option (List String)

pub data PageError : Type 0 where
  cursor_ahead_of_server invalid_cursor_range : PageError

abbrev is_greater : Ordering → Bool
is_greater Ordering.lt = false
is_greater Ordering.eq = false
is_greater Ordering.gt = true

-- `? IS NULL OR updated_seq > ? OR (updated_seq = ? AND entry_id > ?)`
abbrev pub is_past : Option PageCursor → Entry → Bool
is_past none e = true
is_past (some k) e =
    ltb k.updated_seq e.updated_seq
    || ((e.updated_seq == k.updated_seq) && is_greater (compare e.entry_id k.entry_id))

abbrev pub is_named : Option (List String) → Entry → Bool
is_named none e = true
is_named (some ids) e = contains e.entry_id ids

abbrev pub in_range : ℕ → ℕ → Option (List String) → Entry → Bool
in_range since target ids e = ltb since e.updated_seq && leb e.updated_seq target && is_named ids e

abbrev pub key_of : Entry → PageCursor
key_of e = record { updated_seq = e.updated_seq; entry_id = e.entry_id }

-- ORDER BY updated_seq ASC, entry_id ASC
unfoldable pub insert_row : Entry → List Entry → List Entry
insert_row e [] = e ∷ []
insert_row e (r ∷ rs) =
    let rest = insert_row e rs in if is_past (some (key_of e)) r then e ∷ r ∷ rs else r ∷ rest

unfoldable pub order_rows : List Entry → List Entry
order_rows [] = []
order_rows (e ∷ es) = insert_row e (order_rows es)

-- The rows that the query ranges over, before its LIMIT.
unfoldable pub rows_after :
    ℕ → ℕ → Option PageCursor → Option (List String) → List Entry → List Entry
rows_after since target after ids es =
    order_rows (select (λ e. in_range since target ids e && is_past after e) es)

unfoldable pub list_entry_states :
    ℕ → ℕ → Option PageCursor → ℕ → Option (List String) → List Entry → List Entry
list_entry_states since target after limit ids es =
    take limit (rows_after since target after ids es)

unfoldable pub count_entry_states : ℕ → ℕ → Option (List String) → List Entry → ℕ
count_entry_states since target ids es = length (select (in_range since target ids) es)

-- `page.at(-1)`
abbrev pub last_row : List Entry → Option Entry
last_row [] = none
last_row (e ∷ []) = some e
last_row (e ∷ r ∷ rs) = last_row (r ∷ rs)

pub record Page : Type 0 where
  pub target_cursor : ℕ
  pub total_entries : ℕ
  pub has_more : Bool
  pub next_after : Option PageCursor
  pub entries : List Entry

pub data PageReply : Type 0 where
  listed : Page → PageReply
  refused : PageError → PageReply

abbrev is_outside : ℕ → ℕ → Option PageCursor → Bool
is_outside since target none = false
is_outside since target (some k) = leb k.updated_seq since || ltb target k.updated_seq

unfoldable pub validate_cursor_range : ListMessage → ℕ → ℕ → Option PageError
validate_cursor_range m target current =
    if ltb current m.since_cursor
    then some cursor_ahead_of_server
    else if ltb target m.since_cursor
        || ltb current target
        || is_outside m.since_cursor target m.after
    then some invalid_cursor_range
    else none

abbrev pub key_if : Bool → Option Entry → Option PageCursor
key_if false last = none
key_if true none = none
key_if true (some e) = some (key_of e)

-- The rows of one more than the limit tell whether there are more.
unfoldable pub page_of : ListMessage → ℕ → List Entry → Page
page_of m target es =
    let limit = min m.limit max_entry_state_batch in
    let rows = list_entry_states m.since_cursor target m.after (limit + 1) m.entry_ids es in
    let has_more = ltb limit (length rows) in
    let entries = if has_more then take limit rows else rows in
    record {
      target_cursor = target;
      total_entries = count_entry_states m.since_cursor target m.entry_ids es;
      has_more = has_more;
      next_after = key_if has_more (last_row entries);
      entries = entries;
    }

abbrev pub target_of : Option ℕ → ℕ → ℕ
target_of none current = current
target_of (some target) current = target

-- The request on a vault whose cursor is `current`.
unfoldable pub list_entry_states_page : ListMessage → ℕ → List Entry → PageReply
list_entry_states_page m current es =
    let target = target_of m.target_cursor current in
    elim (validate_cursor_range m target current) [
      | some why ↦ refused why
      | none ↦ listed (page_of m target es)
    ]
