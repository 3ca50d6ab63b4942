-- ===== src/Restore/Places.antt =====
-- The places of the results that wait for the commit, as the list of results grows and as a place is
-- settled.
use synch_api.Prelude.{
  ℕ, zero, suc, ◌≡◌, inl, inr, refl, sym, ap, ◌∙◌, String, Bool, true, false, some, List, [], ◌∷◌,
  ◌++◌, arith, Bool-cases, length, map, if◌then◌else◌, map-append,
}
use synch_api.Restore.Batch.{
  Restore, RestoreRefusal, restore_commit_pending, RestoreResult, restored, refused, get_elem?,
  set_elem,
}

abbrev pub restore_key : Restore → String × String
restore_key r = (r.entry_id, r.version_id)

abbrev pub result_key : RestoreResult → String × String
result_key (restored entry_id version_id from cursor revision) = (entry_id, version_id)
result_key (refused entry_id version_id why) = (entry_id, version_id)

abbrev is_waiting : RestoreRefusal → Bool
is_waiting restore_commit_pending = true
is_waiting _ = false

abbrev pub is_pending : RestoreResult → Bool
is_pending (restored entry_id version_id from cursor revision) = false
is_pending (refused entry_id version_id why) = is_waiting why

-- The places of the results that wait for the commit.
unfoldable pub pending_places : List RestoreResult → List ℕ
pending_places [] = []
pending_places (x ∷ xs) =
    let rest = map suc (pending_places xs) in if is_pending x then 0 ∷ rest else rest

abbrev pub place_of : Bool → ℕ → List ℕ
place_of true n = n ∷ []
place_of false n = []

map-place_of : (b : Bool) (n : ℕ) → map suc (place_of b n) ≡ place_of b (suc n)
map-place_of true n = refl
map-place_of false n = refl

-- One place further on, on both sides.
shift_places :
    (b waits : Bool) (n : ℕ) (rest old : List ℕ)
    → rest ≡ old ++ place_of waits n
    → (if b then 0 ∷ map suc rest else map suc rest)
      ≡ (if b then 0 ∷ map suc old else map suc old) ++ place_of waits (suc n)
shift_places b waits n rest old e = by_first b
  where
    later : map suc rest ≡ map suc old ++ place_of waits (suc n)
    later =
        ap (map suc) e
        ∙ map-append suc old (place_of waits n)
        ∙ ap (λ (l : List ℕ). map suc old ++ l) (map-place_of waits n)

    by_first :
        (b : Bool)
        → (if b then 0 ∷ map suc rest else map suc rest)
          ≡ (if b then 0 ∷ map suc old else map suc old) ++ place_of waits (suc n)
    by_first true = ap (λ (l : List ℕ). 0 ∷ l) later
    by_first false = later

pub pending_places-snoc :
    (xs : List RestoreResult) (x : RestoreResult)
    → pending_places (xs ++ x ∷ []) ≡ pending_places xs ++ place_of (is_pending x) (length xs)
unfolding pending_places
pending_places-snoc [] x = alone (is_pending x)
  where
    alone : (b : Bool) → (if b then 0 ∷ [] else []) ≡ place_of b 0
    alone true = refl
    alone false = refl
pending_places-snoc (y ∷ ys) x =
    shift_places (is_pending y) (is_pending x) (length ys) (pending_places (ys ++ x ∷ []))
      (pending_places ys) (pending_places-snoc ys x)

module _ {A : Type 0} where
  cons-head : (a b : A) (xs ys : List A) → (a ∷ xs) ≡ (b ∷ ys) → a ≡ b
  cons-head a b xs ys e = cc

  cons-tail : (a b : A) (xs ys : List A) → (a ∷ xs) ≡ (b ∷ ys) → xs ≡ ys
  cons-tail a b xs ys e = cc

  some-injective : (a b : A) → some a ≡ some b → a ≡ b
  some-injective a b e = cc

pub set_elem-keys :
    (xs : List RestoreResult) (i : ℕ) (x y : RestoreResult)
    → get_elem? xs i ≡ some x
    → result_key y ≡ result_key x
    → map result_key (set_elem i y xs) ≡ map result_key xs
set_elem-keys [] i x y found e = cc
set_elem-keys (z ∷ zs) zero x y found e =
    ap (λ (k : String × String). k ∷ map result_key zs)
      (e ∙ ap result_key (sym (some-injective z x found)))
set_elem-keys (z ∷ zs) (suc i) x y found e =
    ap (λ (l : List (String × String)). result_key z ∷ l) (set_elem-keys zs i x y found e)

-- The first place that waits: there is a result, and once it is settled the other places are left.
abbrev pub First : List RestoreResult → RestoreResult → ℕ → List ℕ → Type 0
First xs y i is =
    ((x : RestoreResult) × (get_elem? xs i ≡ some x)) × (pending_places (set_elem i y xs) ≡ is)

First-here :
    (x y : RestoreResult) (xs : List RestoreResult) (i : ℕ) (is : List ℕ)
    → is_pending y ≡ false
    → (0 ∷ map suc (pending_places xs)) ≡ i ∷ is
    → First (x ∷ xs) y i is
unfolding pending_places
First-here x y xs zero is settled e = ((x, refl), rw settled (cons-tail _ _ _ _ e))
First-here x y xs (suc i) is settled e = absurd (omega (arith, cons-head _ _ _ _ e))

First-later :
    (x y : RestoreResult) (xs : List RestoreResult) (i : ℕ) (is l : List ℕ)
    → is_pending x ≡ false
    → ((j : ℕ) (js : List ℕ) → l ≡ j ∷ js → First xs y j js)
    → map suc l ≡ i ∷ is
    → First (x ∷ xs) y i is
unfolding pending_places
First-later x y xs i is [] free rest e = cc
First-later x y xs zero is (j ∷ js) free rest e = absurd (omega (arith, cons-head _ _ _ _ e))
First-later x y xs (suc i) is (j ∷ js) free rest e =
    let (found, left) = rest j js refl in
    let at : j ≡ i = omega (arith, cons-head _ _ _ _ e) in
    (
      (found.0, ap (get_elem? xs) (sym at) ∙ found.1),
      rw free (
          ap (λ (n : ℕ). map suc (pending_places (set_elem n y xs))) (sym at)
          ∙ ap (map suc) left
          ∙ cons-tail _ _ _ _ e),
    )

pub pending_places-First :
    (xs : List RestoreResult) (i : ℕ) (is : List ℕ) (y : RestoreResult)
    → is_pending y ≡ false
    → pending_places xs ≡ i ∷ is
    → First xs y i is
unfolding pending_places
pending_places-First [] i is y settled e = cc
pending_places-First (x ∷ xs) i is y settled e = elim (Bool-cases (is_pending x)) [
  | inl waits ↦ First-here x y xs i is settled (rw (waits, pending_places) at e)
  | inr free ↦
      First-later x y xs i is (pending_places xs) free
        (λ j js is_first. pending_places-First xs j js y settled is_first)
        (rw (free, pending_places) at e)
]

pub restore_at :
    (rs : List Restore) (xs : List RestoreResult) (i : ℕ) (x : RestoreResult)
    → map result_key xs ≡ map restore_key rs
    → get_elem? xs i ≡ some x
    → (r : Restore) × (get_elem? rs i ≡ some r) × (restore_key r ≡ result_key x)
restore_at [] [] i x e found = cc
restore_at [] (z ∷ zs) i x e found = cc
restore_at (r ∷ rs) [] i x e found = cc
restore_at (r ∷ rs) (z ∷ zs) zero x e found =
    (r, refl, sym (cons-head _ _ _ _ e) ∙ ap result_key (some-injective z x found))
restore_at (r ∷ rs) (z ∷ zs) (suc i) x e found = restore_at rs zs i x (cons-tail _ _ _ _ e) found
