-- ===== src/History/Order.antt =====
-- The order of a page's rows: the numbers of a log are distinct, so that the rows are in the strict
-- order of their numbers, and what follows a row is what is past it.
use synch_api.Prelude.{
  ◌≡◌, ◌≢◌, ◌<◌, refl, Bool, true, false, some, List, [], ◌∷◌, arith, ltb, if◌then◌else◌, select,
  All, All-mono, Bool-cases, inl, inr,
}
use synch_api.Store.Rows.{Entry}
use synch_api.Commit.Cursor.{AllApart}
use synch_api.History.Pages.{is_past, key_of, insert_row, order_rows}

abbrev Other : Entry → Entry → Type 0
Other e x = x.updated_seq ≢ e.updated_seq

abbrev pub Below : Entry → Entry → Type 0
Below e x = e.updated_seq < x.updated_seq

abbrev pub Increasing : List Entry → Type 0
Increasing [] = Unit
Increasing (e ∷ es) = All (Below e) es × Increasing es

-- Between rows of different numbers only the numbers count.
is_past-seq :
    (e r : Entry) → Other e r → is_past (some (key_of e)) r ≡ ltb e.updated_seq r.updated_seq
is_past-seq e r apart = ground arith

module _ (P : Entry → Type 0) where
  All-insert_row : (e : Entry) (rs : List Entry) → P e → All P rs → All P (insert_row e rs)
  unfolding insert_row
  All-insert_row e [] h hs = (h, tt)
  All-insert_row e (r ∷ rs) h hs = elim (Bool-cases (is_past (some (key_of e)) r)) [
    | inl front ↦ rw (insert_row, front) (h, hs)
    | inr back ↦ rw (insert_row, back) (hs.0, All-insert_row e rs h hs.1)
  ]

  All-order_rows : (es : List Entry) → All P es → All P (order_rows es)
  unfolding order_rows
  All-order_rows [] h = tt
  All-order_rows (e ∷ es) h = All-insert_row e (order_rows es) h.0 (All-order_rows es h.1)

  pub All-select : (p : Entry → Bool) (es : List Entry) → All P es → All P (select p es)
  All-select p [] h = tt
  All-select p (e ∷ es) h = elim (Bool-cases (p e)) [
    | inl in_it ↦ rw (select, in_it) (h.0, All-select p es h.1)
    | inr out ↦ rw (select, out) (All-select p es h.1)
  ]

insert_row-Increasing :
    (e : Entry) (rs : List Entry) → All (Other e) rs → Increasing rs → Increasing (insert_row e rs)
unfolding insert_row
insert_row-Increasing e [] apart up = (tt, tt)
insert_row-Increasing e (r ∷ rs) apart up = elim (Bool-cases (is_past (some (key_of e)) r)) [
  | inl front ↦
      let less = is_past-seq e r apart.0 in
      rw (insert_row, front)
        ((below less front, All-mono rs (λ x h. omega (arith, below less front, h)) up.0), up)
  | inr back ↦
      let less = is_past-seq e r apart.0 in
      rw (insert_row, back)
        (
          All-insert_row (Below r) e rs (above less back apart.0) up.0,
          insert_row-Increasing e rs apart.1 up.1,
        )
]
  where
    below :
        is_past (some (key_of e)) r ≡ ltb e.updated_seq r.updated_seq
        → is_past (some (key_of e)) r ≡ true
        → e.updated_seq < r.updated_seq
    below p q = ground arith

    above :
        is_past (some (key_of e)) r ≡ ltb e.updated_seq r.updated_seq
        → is_past (some (key_of e)) r ≡ false
        → Other e r
        → r.updated_seq < e.updated_seq
    above p q other = ground arith

pub order_rows-Increasing : (es : List Entry) → AllApart es → Increasing (order_rows es)
unfolding order_rows
order_rows-Increasing [] apart = tt
order_rows-Increasing (e ∷ es) apart =
    insert_row-Increasing e (order_rows es)
      (All-order_rows (Other e) es (All-mono es (λ x h. h.1) apart.0))
      (order_rows-Increasing es apart.1)

insert_row-front : (e : Entry) (rs : List Entry) → All (Below e) rs → insert_row e rs ≡ e ∷ rs
unfolding insert_row
insert_row-front e [] below = refl
insert_row-front e (r ∷ rs) below = ground (arith, below.0)

-- A selection of an ordered table is the ordered table of the selection.
select-insert_row :
    (p : Entry → Bool) (e : Entry) (rs : List Entry)
    → All (Other e) rs
    → Increasing rs
    → select p (insert_row e rs) ≡ (if p e then insert_row e (select p rs) else select p rs)
unfolding insert_row
select-insert_row p e [] apart up = refl
select-insert_row p e (r ∷ rs) apart up = elim (Bool-cases (is_past (some (key_of e)) r)) [
  | inl front ↦
      let less = is_past-seq e r apart.0 in
      let above : All (Below e) (r ∷ rs) =
        (below less front, All-mono rs (λ x h. omega (arith, below less front, h)) up.0) in
      rw (insert_row, front)
        (ground
          (arith, insert_row-front e (select p (r ∷ rs)) (All-select (Below e) p (r ∷ rs) above)))
  | inr back ↦ ground (arith, select-insert_row p e rs apart.1 up.1)
]
  where
    below :
        is_past (some (key_of e)) r ≡ ltb e.updated_seq r.updated_seq
        → is_past (some (key_of e)) r ≡ true
        → e.updated_seq < r.updated_seq
    below p q = ground arith

pub select-order_rows :
    (p : Entry → Bool) (es : List Entry)
    → AllApart es
    → select p (order_rows es) ≡ order_rows (select p es)
unfolding order_rows
select-order_rows p [] apart = refl
select-order_rows p (e ∷ es) apart = ground (
  arith,
  select-insert_row p e (order_rows es)
      (All-order_rows (Other e) es (All-mono es (λ x h. h.1) apart.0))
      (order_rows-Increasing es apart.1),
  select-order_rows p es apart.1,
)
