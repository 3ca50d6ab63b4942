-- ===== src/Access/Sets.antt =====
-- The writes of a refresh that block a user's lower versions.
use synch_api.Prelude.{
  ℕ, ◌≤◌, ◌<◌, ◌≡◌, ◌⊎◌, inl, inr, refl, ap, String, some, List, [], ◌∷◌, ◌++◌, arith, Bool-cases,
  same, same_self, leb, max, All, ◌∙◌,
}
use synch_api.Access.Revocations.{
  Revocation, user_revocation_key, user_revocation_key-injective, find_revocation,
  find_revocation-write_revocation,
}
use synch_api.Access.Service.{
  Grant, StoreWrite, write, delete, perform, perform_all, grant_writes, revocation_for, minimum_of,
}
use synch_api.Access.Blocks.{Blocks, Keeps, perform_all-Blocks}

module _ (user_id : String) (v t : ℕ) where
  -- A write that blocks, whatever the table was.
  abbrev Sets : StoreWrite → Type 0
  Sets (write r) =
      (r.key ≡ user_revocation_key user_id)
      × (m : ℕ) × (r.minimum_version ≡ some m)
      × (v ≤ m)
      × (t ≤ r.expires_at)
  Sets (delete key) = ⊥

  abbrev pub AnySets : List StoreWrite → Type 0
  AnySets [] = ⊥
  AnySets (w ∷ ws) = Sets w ⊎ AnySets ws

  perform-Sets :
      (w : StoreWrite) (rs : List Revocation) → Sets w → Blocks user_id v t (perform w rs)
  perform-Sets (write r) rs (own, m, is, high, late) = record {
    row = r;
    minimum = m;
    found =
        find_revocation-write_revocation _ r rs
        ∙ rw own (rw (same_self (user_revocation_key user_id)) refl);
    bounded = is;
    raised = high;
    lasts = late;
  }
  perform-Sets (delete key) rs none_set = absurd none_set

  pub perform_all-AnySets :
      (ws : List StoreWrite) (rs : List Revocation)
      → All (Keeps user_id v t) ws
      → AnySets ws
      → Blocks user_id v t (perform_all ws rs)
  unfolding perform_all
  perform_all-AnySets [] rs h any = absurd any
  perform_all-AnySets (w ∷ ws) rs h (inl sets) =
      perform_all-Blocks user_id v t ws (perform w rs) h.1 (perform-Sets w rs sets)
  perform_all-AnySets (w ∷ ws) rs h (inr any) = perform_all-AnySets ws (perform w rs) h.1 any

pub AnySets-snoc :
    (user_id : String) (v t : ℕ) (ws : List StoreWrite) (w : StoreWrite)
    → AnySets user_id v t ws
    → AnySets user_id v t (ws ++ w ∷ [])
AnySets-snoc user_id v t [] w any = absurd any
AnySets-snoc user_id v t (x ∷ xs) w (inl sets) = inl sets
AnySets-snoc user_id v t (x ∷ xs) w (inr any) = inr (AnySets-snoc user_id v t xs w any)

-- The snapshot grants the user nothing below `v`, and something.
abbrev pub AtLeast : String → ℕ → Grant → Type 0
AtLeast user_id v g = g.user_id ≡ user_id → v ≤ g.access_version

abbrev pub Names : String → List Grant → Type 0
Names user_id [] = ⊥
Names user_id (g ∷ gs) = (g.user_id ≡ user_id) ⊎ Names user_id gs

module _ (user_id : String) (v t : ℕ) (rs : List Revocation) where
  abbrev row : Grant → Revocation
  row g = revocation_for rs t g

  row-bounds :
      (g : Grant)
      → v ≤ g.access_version
      → (m : ℕ) × ((row g).minimum_version ≡ some m) × (v ≤ m) × (t ≤ (row g).expires_at)
  row-bounds g high = (
    max g.access_version (minimum_of (find_revocation (user_revocation_key g.user_id) rs)),
    refl,
    omega (arith, high),
    omega arith,
  )

  keeps : (g : Grant) → AtLeast user_id v g → Keeps user_id v t (write (row g))
  keeps g least =
      elim (Bool-cases (same (user_revocation_key g.user_id) (user_revocation_key user_id))) [
        | inl own ↦
            inr (
              row-bounds g (least (user_revocation_key-injective g.user_id user_id (ground arith))))
        | inr other ↦ inl other
      ]

  pub AtLeast-grant_writes :
      (gs : List Grant)
      → All (AtLeast user_id v) gs
      → All (Keeps user_id v t) (grant_writes rs t gs)
  unfolding grant_writes
  AtLeast-grant_writes [] h = tt
  AtLeast-grant_writes (g ∷ gs) h = elim (Bool-cases (leb g.access_version 1)) [
    | inl low ↦ rw low (AtLeast-grant_writes gs h.1)
    | inr high ↦ rw high (keeps g h.0, AtLeast-grant_writes gs h.1)
  ]

  pub grant_writes-AnySets :
      (gs : List Grant)
      → 1 < v
      → All (AtLeast user_id v) gs
      → Names user_id gs
      → AnySets user_id v t (grant_writes rs t gs)
  unfolding grant_writes
  grant_writes-AnySets [] up h named = absurd named
  grant_writes-AnySets (g ∷ gs) up h (inl own) = elim (Bool-cases (leb g.access_version 1)) [
    | inl low ↦ absurd (ground (arith, up, h.0 own, low))
    | inr high ↦
        let (m, is, above, late) = row-bounds g (h.0 own) in
        rw high (inl (ap user_revocation_key own, m, is, above, late))
  ]
  grant_writes-AnySets (g ∷ gs) up h (inr named) = elim (Bool-cases (leb g.access_version 1)) [
    | inl low ↦ rw low (grant_writes-AnySets gs up h.1 named)
    | inr high ↦ rw high (inr (grant_writes-AnySets gs up h.1 named))
  ]
