-- ===== src/History/Ranges.antt =====
-- The requests that `listEntryStates` answers, and the total that it tells.
use synch_api.Prelude.{
  ℕ, suc, ◌≡◌, ◌<◌, ◌≤◌, ◌↔◌, refl, ap, ◌∙◌, String, Bool, true, ◌&&◌, Option, none, some, List, [],
  ◌∷◌, arith, select, length, sym,
}
use synch_api.Store.Rows.{Entry}
use synch_api.History.Pages.{
  PageCursor, ListMessage, insert_row, order_rows, rows_after, in_range, count_entry_states,
  validate_cursor_range,
}

abbrev pub Within : ℕ → ℕ → Option PageCursor → Type 0
Within since target none = Unit
Within since target (some k) = (since < k.updated_seq) × (k.updated_seq ≤ target)

within :
    (m : ListMessage) (target current : ℕ) (after : Option PageCursor)
    → (validate_cursor_range (record m { after = after }) target current ≡ none)
      ↔ ((m.since_cursor ≤ target) × (target ≤ current) × Within m.since_cursor target after)
unfolding validate_cursor_range
within m target current none = (λ h. (ground arith, ground arith, tt), λ h. ground arith)
within m target current (some k) =
    (λ h. (ground arith, ground arith, (ground arith, ground arith)), λ h. ground arith)

-- A request is answered just if its range ends between the cursor that it starts from and the
-- vault's cursor, and its page cursor, if it has one, lies in the range.
pub validate_cursor_range-Within :
    (m : ListMessage) (target current : ℕ)
    → (validate_cursor_range m target current ≡ none)
      ↔ ((m.since_cursor ≤ target) × (target ≤ current) × Within m.since_cursor target m.after)
validate_cursor_range-Within m target current = within m target current m.after

length-insert_row : (e : Entry) (rs : List Entry) → length (insert_row e rs) ≡ suc (length rs)
unfolding insert_row
length-insert_row e [] = refl
length-insert_row e (r ∷ rs) = ground (arith, length-insert_row e rs)

length-order_rows : (es : List Entry) → length (order_rows es) ≡ length es
unfolding order_rows
length-order_rows [] = refl
length-order_rows (e ∷ es) = length-insert_row e (order_rows es) ∙ ap suc (length-order_rows es)

select-first : (p : Entry → Bool) (es : List Entry) → select (λ e. p e && true) es ≡ select p es
select-first p [] = refl
select-first p (e ∷ es) = ground (arith, select-first p es)

-- The total that every page tells is the number of rows that a pull from the start of the range
-- goes through.
pub count_entry_states-rows_after :
    (since target : ℕ) (ids : Option (List String)) (es : List Entry)
    → count_entry_states since target ids es ≡ length (rows_after since target none ids es)
unfolding count_entry_states rows_after
count_entry_states-rows_after since target ids es =
    ap length (sym (select-first (in_range since target ids) es)) ∙ sym (length-order_rows _)
