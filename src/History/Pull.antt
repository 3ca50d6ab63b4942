-- ===== src/History/Pull.antt =====
-- Prefixes of an increasing table and the rows past their last row.
use text.Mathlib.TextPositions.{compare_refl}
use synch_api.Prelude.{
  ℕ, suc, zero, ◌≡◌, ◌<◌, ◌≤◌, ◌⊎◌, refl, sym, ap, ◌∙◌, subst, Bool, true, false, some, List, [],
  ◌∷◌, ◌++◌, arith, take, select, length, All, Bool-cases, inl, inr,
}
use synch_api.Store.Rows.{Entry}
use synch_api.History.Pages.{is_past, key_of, last_row}
use synch_api.History.Order.{Below, Increasing, All-select}

abbrev pub drop : ℕ → List Entry → List Entry
drop zero xs = xs
drop (suc n) [] = []
drop (suc n) (x ∷ xs) = drop n xs

pub take-drop : (n : ℕ) (xs : List Entry) → take n xs ++ drop n xs ≡ xs
take-drop zero xs = refl
take-drop (suc n) [] = refl
take-drop (suc n) (x ∷ xs) = ap (λ (ys : List Entry). x ∷ ys) (take-drop n xs)

pub take-all : (n : ℕ) (xs : List Entry) → length (take (suc n) xs) ≤ n → take (suc n) xs ≡ xs
take-all zero [] short = refl
take-all zero (x ∷ xs) short = absurd (omega arith)
take-all (suc n) [] short = refl
take-all (suc n) (x ∷ xs) short = ap (λ (ys : List Entry). x ∷ ys) (take-all n xs (omega arith))

pub take-take : (n : ℕ) (xs : List Entry) → take n (take (suc n) xs) ≡ take n xs
take-take zero xs = refl
take-take (suc n) [] = refl
take-take (suc n) (x ∷ xs) = ap (λ (ys : List Entry). x ∷ ys) (take-take n xs)

pub last_row-some :
    (n : ℕ) (xs : List Entry)
    → 0 < n
    → n < length (take (suc n) xs)
    → (k : Entry) × (last_row (take n xs) ≡ some k)
last_row-some (suc zero) (x ∷ xs) some_room long = (x, refl)
last_row-some (suc (suc n)) (x ∷ y ∷ ys) some_room long =
    last_row-some (suc n) (y ∷ ys) (omega arith) (omega arith)
last_row-some (suc (suc n)) (x ∷ []) some_room long = absurd (omega arith)
last_row-some (suc n) [] some_room long = absurd (omega arith)
last_row-some zero xs some_room long = absurd (omega arith)

abbrev pub In : Entry → List Entry → Type 0
In k [] = ⊥
In k (x ∷ xs) = (k ≡ x) ⊎ In k xs

pub last_row-In : (n : ℕ) (xs : List Entry) (k : Entry) → last_row (take n xs) ≡ some k → In k xs
last_row-In zero xs k e = absurd (cc e)
last_row-In (suc n) [] k e = absurd (cc e)
last_row-In (suc zero) (x ∷ xs) k e = inl (cc e)
last_row-In (suc (suc n)) (x ∷ []) k e = inl (cc e)
last_row-In (suc (suc n)) (x ∷ y ∷ ys) k e = inr (last_row-In (suc n) (y ∷ ys) k e)

In-All : (P : Entry → Type 0) (k : Entry) (xs : List Entry) → In k xs → All P xs → P k
In-All P k (x ∷ xs) (inl this) h = subst P (sym this) h.0
In-All P k (x ∷ xs) (inr later) h = In-All P k xs later h.1
In-All P k [] there h = absurd there

pub In-select :
    (q : Entry → Bool) (k : Entry) (xs : List Entry) → In k (select q xs) → In k xs × (q k ≡ true)
In-select q k [] there = absurd there
In-select q k (x ∷ xs) there = elim (Bool-cases (q x)) [
  | inl kept ↦ from kept (In-select q k xs) (rw (select, kept) at there)
  | inr out ↦ let (later, is) = In-select q k xs (rw (select, out) at there) in (inr later, is)
]
  where
    from :
        q x ≡ true
        → (In k (select q xs) → In k xs × (q k ≡ true))
        → (k ≡ x) ⊎ In k (select q xs)
        → In k (x ∷ xs) × (q k ≡ true)
    from kept rest (inl this) = (inl this, ap q this ∙ kept)
    from kept rest (inr later) = let (l, is) = rest later in (inr l, is)

not_past_self : (k : Entry) → is_past (some (key_of k)) k ≡ false
not_past_self k = ground (arith, compare_refl k.entry_id)

select-above :
    (k : Entry) (xs : List Entry) → All (Below k) xs → select (is_past (some (key_of k))) xs ≡ xs
select-above k [] h = refl
select-above k (x ∷ xs) h = ground (arith, h.0, select-above k xs h.1)

head-past :
    (k x : Entry) (xs : List Entry)
    → k ≡ x
    → All (Below x) xs
    → select (is_past (some (key_of k))) (x ∷ xs) ≡ xs
head-past k x xs this h =
    subst (λ (y : Entry). select (is_past (some (key_of y))) (x ∷ xs) ≡ xs) (sym this)
      (ground (arith, not_past_self x, select-above x xs h))

-- In an increasing table the rows past the last of `n` rows are those after the first `n`.
pub select-drop :
    (n : ℕ) (xs : List Entry) (k : Entry)
    → Increasing xs
    → last_row (take n xs) ≡ some k
    → select (is_past (some (key_of k))) xs ≡ drop n xs
select-drop zero xs k up e = absurd (cc e)
select-drop (suc n) [] k up e = refl
select-drop (suc zero) (x ∷ xs) k up e = head-past k x xs (cc e) up.0
select-drop (suc (suc n)) (x ∷ []) k up e = head-past k x [] (cc e) tt
select-drop (suc (suc n)) (x ∷ y ∷ ys) k up e =
    let below = In-All (Below x) k (y ∷ ys) (last_row-In (suc n) (y ∷ ys) k e) up.0 in
    ground (arith, below, select-drop (suc n) (y ∷ ys) k up.1 e)

-- A row that is past one that was selected is selected.
pub select-select :
    (q : Entry → Bool) (k : Entry) (xs : List Entry)
    → Increasing xs
    → In k xs
    → ((e : Entry) → Below k e → q e ≡ true)
    → select (is_past (some (key_of k))) (select q xs) ≡ select (is_past (some (key_of k))) xs
select-select q k [] up there on = refl
select-select q k (x ∷ xs) up (inl this) on = elim (Bool-cases (q x)) [
  | inl kept ↦
      rw (select, kept)
        (head-past k x (select q xs) this (All-select (Below x) q xs up.0)
          ∙ all_on xs up.0
          ∙ sym (head-past k x xs this up.0))
  | inr out ↦
      rw (select, out)
        (ap (select (is_past (some (key_of k)))) (all_on xs up.0)
          ∙ select-above k xs (subst (λ (e : Entry). All (Below e) xs) (sym this) up.0)
          ∙ sym (head-past k x xs this up.0))
]
  where
    all_on : (ys : List Entry) → All (Below x) ys → select q ys ≡ ys
    all_on [] h = refl
    all_on (y ∷ ys) h =
        ground (arith, on y (subst (λ (e : Entry). Below e y) (sym this) h.0), all_on ys h.1)
select-select q k (x ∷ xs) up (inr later) on =
    let below = In-All (Below x) k xs later up.0 in
    ground (arith, below, select-select q k xs up.1 later on)
