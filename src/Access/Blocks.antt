-- ===== src/Access/Blocks.antt =====
-- Revocations over time: what a refresh has blocked stays blocked while tokens from before it live.
use synch_api.Prelude.{
  ℕ, ◌≤◌, ◌<◌, ◌≡◌, ◌⊎◌, inl, inr, refl, sym, subst, ap, ◌∙◌, String, Bool, true, false, Option,
  none, some, List, [], ◌∷◌, arith, Bool-cases, same, leb, max, or_else, All,
}
use synch_api.Access.Revocations.{
  Revocation, vault_suspension_key, user_revocation_key, user_revocation_key-ne, find_revocation,
  write_revocation, find_revocation-write_revocation, find_revocation-delete_other,
  find_revocation-prune, prune,
}
use synch_api.Access.Service.{
  Access, Grant, load, next_of, none_expired, earliest_expiry, StoreWrite, write, delete, perform,
  perform_all, grant_writes, suspension_write, revocation_for,
}

-- The user's versions below `v` are blocked until `t`.
pub record Blocks (user_id : String) (v t : ℕ) (rs : List Revocation) : Type 0 where
  pub row : Revocation
  pub minimum : ℕ
  pub found : find_revocation (user_revocation_key user_id) rs ≡ some row
  pub bounded : row.minimum_version ≡ some minimum
  pub raised : v ≤ minimum
  pub lasts : t ≤ row.expires_at

-- The service's copy, where it has one, is the table, with its first expiry.
abbrev pub Fresh : Access → Type 0
Fresh s =
    (rs : List Revocation)
    → s.revocations ≡ some rs
    → (rs ≡ s.store) × (s.next_expiry ≡ earliest_expiry rs)

copy_facts :
    (rs store : List Revocation) (copy : Option (List Revocation)) (next : Option ℕ)
    → Fresh (record { store = store; revocations = copy; next_expiry = next })
    → (or_else copy store ≡ store)
      × (next_of (record { store = store; revocations = copy; next_expiry = next })
          ≡ earliest_expiry store)
copy_facts rs store none next fresh = (refl, refl)
copy_facts rs store (some copy) next fresh =
    let (is, first) = fresh copy refl in (is, first ∙ ap earliest_expiry is)

-- What `load` leaves: the copy of the table, of which at most expired rows have gone.
pub record IsLoaded (now : ℕ) (s s' : Access) : Type 0 where
  pub copied : s'.revocations ≡ some s'.store
  pub first : s'.next_expiry ≡ earliest_expiry s'.store
  pub kept : (s'.store ≡ s.store) ⊎ (s'.store ≡ prune now s.store)

pub load-IsLoaded : (now : ℕ) (s : Access) → Fresh s → IsLoaded now s (load now s)
unfolding load
load-IsLoaded now s fresh =
    let (is, next) = copy_facts [] s.store s.revocations s.next_expiry fresh in
    elim (Bool-cases (none_expired (next_of s) now)) [
      | inl later ↦ rw (load, later) (record { copied = ap some is; first = next; kept = inl refl })
      | inr passed ↦
          rw (load, passed)
            (record {
              copied = ap (λ (rs : List Revocation). some (prune now rs)) is;
              first = ap (λ (rs : List Revocation). earliest_expiry (prune now rs)) is;
              kept = inr refl;
            })
    ]

pub IsLoaded-Fresh : (now : ℕ) (s s' : Access) → IsLoaded now s s' → Fresh s'
IsLoaded-Fresh now s s' l rs is =
    let e : rs ≡ s'.store = some-injective (sym is ∙ l.copied) in
    (e, l.first ∙ ap earliest_expiry (sym e))
  where
    some-injective : {a b : List Revocation} → some a ≡ some b → a ≡ b
    some-injective p = cc

vault_key-apart :
    (user_id : String) → same vault_suspension_key (user_revocation_key user_id) ≡ false
vault_key-apart user_id =
    elim (Bool-cases (same vault_suspension_key (user_revocation_key user_id))) [
      | inl equal ↦ absurd (user_revocation_key-ne user_id (ground arith))
      | inr apart ↦ apart
    ]

module _ (user_id : String) (v t : ℕ) where
  Blocks-prune :
      (now : ℕ) (rs : List Revocation)
      → now < t
      → Blocks user_id v t rs
      → Blocks user_id v t (prune now rs)
  Blocks-prune now rs before b = record {
    row = b.row;
    minimum = b.minimum;
    found = find_revocation-prune _ now rs b.found (ground (arith, before, b.lasts));
    bounded = b.bounded;
    raised = b.raised;
    lasts = b.lasts;
  }

  pub load-Blocks :
      (now : ℕ) (s : Access)
      → Fresh s
      → now < t
      → Blocks user_id v t s.store
      → Blocks user_id v t (load now s).store
  load-Blocks now s fresh before b = elim (load-IsLoaded now s fresh).kept [
    | inl same ↦ subst (Blocks user_id v t) (sym same) b
    | inr pruned ↦ subst (Blocks user_id v t) (sym pruned) (Blocks-prune now s.store before b)
  ]

  -- A write that keeps the block: of another row, or of a row that blocks.
  abbrev pub Keeps : StoreWrite → Type 0
  Keeps (write r) =
      (same r.key (user_revocation_key user_id) ≡ false)
      ⊎ ((m : ℕ) × (r.minimum_version ≡ some m) × (v ≤ m) × (t ≤ r.expires_at))
  Keeps (delete key) = same key (user_revocation_key user_id) ≡ false

  pub write_other-Blocks :
      (r : Revocation) (rs : List Revocation)
      → same r.key (user_revocation_key user_id) ≡ false
      → Blocks user_id v t rs
      → Blocks user_id v t (write_revocation r rs)
  write_other-Blocks r rs other b = record {
    row = b.row;
    minimum = b.minimum;
    found = find_revocation-write_revocation _ r rs ∙ rw other b.found;
    bounded = b.bounded;
    raised = b.raised;
    lasts = b.lasts;
  }

  pub perform-Blocks :
      (w : StoreWrite) (rs : List Revocation)
      → Keeps w
      → Blocks user_id v t rs
      → Blocks user_id v t (perform w rs)
  perform-Blocks (write r) rs (inl other) b = write_other-Blocks r rs other b
  perform-Blocks (write r) rs (inr (m, is, high, late)) b =
      elim (Bool-cases (same r.key (user_revocation_key user_id))) [
        | inl own ↦ record {
          row = r;
          minimum = m;
          found = find_revocation-write_revocation _ r rs ∙ rw own refl;
          bounded = is;
          raised = high;
          lasts = late;
        }
        | inr other ↦ write_other-Blocks r rs other b
      ]
  perform-Blocks (delete key) rs other b = record {
    row = b.row;
    minimum = b.minimum;
    found = find_revocation-delete_other _ key rs other ∙ b.found;
    bounded = b.bounded;
    raised = b.raised;
    lasts = b.lasts;
  }

  pub perform_all-Blocks :
      (ws : List StoreWrite) (rs : List Revocation)
      → All Keeps ws
      → Blocks user_id v t rs
      → Blocks user_id v t (perform_all ws rs)
  unfolding perform_all
  perform_all-Blocks [] rs h b = b
  perform_all-Blocks (w ∷ ws) rs h b =
      perform_all-Blocks ws (perform w rs) h.1 (perform-Blocks w rs h.0 b)

  -- The row for a grant, over a table that blocks, blocks as well.
  revocation_for-Keeps :
      (rs : List Revocation) (expires_at : ℕ) (g : Grant)
      → Blocks user_id v t rs
      → Keeps (write (revocation_for rs expires_at g))
  revocation_for-Keeps rs expires_at g b =
      elim (Bool-cases (same (user_revocation_key g.user_id) (user_revocation_key user_id))) [
        | inl own ↦
            let found : find_revocation (user_revocation_key g.user_id) rs ≡ some b.row =
              ap (λ (key : String). find_revocation key rs) (ground arith) ∙ b.found in
            inr (
              rw (found, b.bounded)
                (
                  max g.access_version b.minimum,
                  refl,
                  omega (arith, b.raised),
                  omega (arith, b.lasts),
                ))
        | inr other ↦ inl other
      ]

  pub grant_writes-Keeps :
      (rs : List Revocation) (expires_at : ℕ) (gs : List Grant)
      → Blocks user_id v t rs
      → All Keeps (grant_writes rs expires_at gs)
  unfolding grant_writes
  grant_writes-Keeps rs expires_at [] b = tt
  grant_writes-Keeps rs expires_at (g ∷ gs) b = elim (Bool-cases (leb g.access_version 1)) [
    | inl low ↦ rw low (grant_writes-Keeps rs expires_at gs b)
    | inr high ↦
        rw high (revocation_for-Keeps rs expires_at g b, grant_writes-Keeps rs expires_at gs b)
  ]

  pub suspension_write-Keeps : (b : Bool) (expires_at : ℕ) → Keeps (suspension_write b expires_at)
  suspension_write-Keeps true expires_at = inl (vault_key-apart user_id)
  suspension_write-Keeps false expires_at = vault_key-apart user_id
