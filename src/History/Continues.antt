-- ===== src/History/Continues.antt =====
-- A page of `listEntryStates` against what its cursor leaves for the next one.
use synch_api.Prelude.{
  ℕ, suc, ◌≡◌, ◌<◌, refl, sym, ap, ◌∙◌, subst, String, Bool, true, ◌&&◌, Option, none, some, List,
  [], ◌∷◌, ◌++◌, arith, min, ltb, if◌then◌else◌, take, select, length, Bool-cases, inl, inr,
}
use synch_api.Store.Rows.{Entry}
use synch_api.Commit.Cursor.{AllApart, Apart}
use synch_api.History.Pages.{
  PageCursor, ListMessage, Page, is_past, in_range, key_of, last_row, order_rows, rows_after,
  list_entry_states, page_of, max_entry_state_batch, key_if,
}
use synch_api.History.Order.{
  Below, Increasing, All-select, order_rows-Increasing, select-order_rows,
}
use synch_api.History.Pull.{
  drop, take-drop, take-all, take-take, last_row-some, last_row-In, In-select, select-drop,
  select-select,
}

AllApart-select : (p : Entry → Bool) (es : List Entry) → AllApart es → AllApart (select p es)
AllApart-select p [] h = tt
AllApart-select p (e ∷ es) h = elim (Bool-cases (p e)) [
  | inl kept ↦ rw (select, kept) (All-select (Apart e) p es h.0, AllApart-select p es h.1)
  | inr out ↦ rw (select, out) (AllApart-select p es h.1)
]

Increasing-select : (p : Entry → Bool) (es : List Entry) → Increasing es → Increasing (select p es)
Increasing-select p [] h = tt
Increasing-select p (e ∷ es) h = elim (Bool-cases (p e)) [
  | inl kept ↦ rw (select, kept) (All-select (Below e) p es h.0, Increasing-select p es h.1)
  | inr out ↦ rw (select, out) (Increasing-select p es h.1)
]

select-and :
    (p q : Entry → Bool) (es : List Entry) → select (λ e. p e && q e) es ≡ select q (select p es)
select-and p q [] = refl
select-and p q (e ∷ es) = ground (arith, select-and p q es)

still_past :
    (after : Option PageCursor) (k e : Entry)
    → is_past after k ≡ true
    → Below k e
    → is_past after e ≡ true
still_past none k e h below = refl
still_past (some a) k e h below = ground arith

module _ (since target : ℕ) (ids : Option (List String)) (es : List Entry)
    (apart : AllApart es) where
  -- The rows of the range, in order.
  abbrev ordered : List Entry
  ordered = order_rows (select (in_range since target ids) es)

  ordered-Increasing : Increasing ordered
  ordered-Increasing =
      order_rows-Increasing (select (in_range since target ids) es) (AllApart-select _ es apart)

  rows_after-select :
      (after : Option PageCursor)
      → rows_after since target after ids es ≡ select (is_past after) ordered
  unfolding rows_after
  rows_after-select after =
      ap order_rows (select-and (in_range since target ids) (is_past after) es)
      ∙ sym (select-order_rows (is_past after) _ (AllApart-select _ es apart))

  -- What is past the last of the first `n` rows is what follows them.
  pub rows_after-drop :
      (after : Option PageCursor) (n : ℕ) (k : Entry)
      → last_row (take n (rows_after since target after ids es)) ≡ some k
      → rows_after since target (some (key_of k)) ids es
        ≡ drop n (rows_after since target after ids es)
  rows_after-drop after n k e =
      let same = rows_after-select after in
      let e' = subst (λ (xs : List Entry). last_row (take n xs) ≡ some k) same e in
      let (there, is) = In-select (is_past after) k ordered (last_row-In n _ k e') in
      rows_after-select (some (key_of k))
      ∙ sym (
          select-select (is_past after) k ordered ordered-Increasing there
            (λ x. still_past after k x is))
      ∙ select-drop n (select (is_past after) ordered) k
          (Increasing-select (is_past after) ordered ordered-Increasing) e'
      ∙ ap (drop n) (sym same)

-- The rows that the page's cursor leaves for the next request.
abbrev pub left_by : ListMessage → ℕ → List Entry → Page → List Entry
left_by m target es p =
    if p.has_more then rows_after m.since_cursor target p.next_after m.entry_ids es else []

module _ (limit : ℕ) (rows : List Entry) (rest : Option PageCursor → List Entry)
    (follows : (k : Entry)
      → last_row (take limit rows) ≡ some k
      → rest (some (key_of k)) ≡ drop limit rows) where
  -- The page of `raw`, one row longer than the limit, and the rest.
  abbrev Joins : List Entry → Type 0
  Joins raw =
      let more = ltb limit (length raw) in
      let entries = if more then take limit raw else raw in
      entries ++ (if more then rest (key_if more (last_row entries)) else []) ≡ rows

  joined : 0 < limit → Joins (take (suc limit) rows)
  joined room = elim (Bool-cases (ltb limit (length (take (suc limit) rows)))) [
    | inl more ↦
        let (k, last) = last_row-some limit rows room (ground arith) in
        rw (more, take-take limit rows, last, follows k last) (take-drop limit rows)
    | inr all ↦ rw all (append_nil (take (suc limit) rows) ∙ take-all limit rows (ground arith))
  ]
    where
      append_nil : (xs : List Entry) → xs ++ [] ≡ xs
      append_nil [] = refl
      append_nil (x ∷ xs) = ap (λ (ys : List Entry). x ∷ ys) (append_nil xs)

module _ (m : ListMessage) (target : ℕ) (es : List Entry) where
  abbrev limit : ℕ
  limit = min m.limit max_entry_state_batch

  abbrev rest : Option PageCursor → List Entry
  rest after = rows_after m.since_cursor target after m.entry_ids es

  page_of-Joins :
      ((k : Entry)
        → last_row (take limit (rest m.after)) ≡ some k
        → rest (some (key_of k)) ≡ drop limit (rest m.after))
      → 0 < limit
      → (page_of m target es).entries ++ left_by m target es (page_of m target es) ≡ rest m.after
  unfolding page_of list_entry_states
  page_of-Joins follows room =
      subst (λ (n : ℕ). Joins limit (rest m.after) rest follows (take n (rest m.after)))
        {x = suc limit} (omega arith) (joined limit (rest m.after) rest follows room)

-- On a log, a page of a request with a limit above 0 and what its cursor leaves are together the
-- rows that the request's cursor left: none is skipped and none comes twice.
pub page_of-rows_after :
    (m : ListMessage) (target : ℕ) (es : List Entry)
    → AllApart es
    → 0 < m.limit
    → (page_of m target es).entries ++ left_by m target es (page_of m target es)
      ≡ rows_after m.since_cursor target m.after m.entry_ids es
page_of-rows_after m target es apart room =
    page_of-Joins m target es
      (rows_after-drop m.since_cursor target m.entry_ids es apart m.after (limit m target es))
      (omega arith)
