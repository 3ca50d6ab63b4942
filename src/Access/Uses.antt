-- ===== src/Access/Uses.antt =====
-- The life of the access service after a refresh: refreshes, whole or cut short, checks, and restarts
-- of the coordinator, which forget the copy of the table.
use synch_api.Prelude.{
  ℕ, ◌+◌, ◌<◌, ◌≡◌, inl, inr, refl, sym, subst, ap, ◌∙◌, String, Bool, true, false, Option, none,
  some, List, [], ◌∷◌, ◌++◌, arith, Bool-cases, is_some, All, zero, suc, take,
}
use synch_api.Access.Revocations.{
  Revocation, vault_suspension_key, user_revocation_key, find_revocation,
}
use synch_api.Access.Service.{
  Access, SyncAccessSnapshot, VerifiedVaultAccess, Denial, sharing_suspended, vault_access_denied,
  denial, refused, require, load, cache_of, StoreWrite, perform_all, taken, grant_writes, writes_of,
  refresh_store,
}
use synch_api.Access.Sets.{
  AtLeast, Names, perform_all-AnySets, AnySets-snoc, AtLeast-grant_writes, grant_writes-AnySets,
}
use synch_api.Access.Blocks.{
  Blocks, Fresh, IsLoaded, load-IsLoaded, IsLoaded-Fresh, load-Blocks, Keeps, perform_all-Blocks,
  grant_writes-Keeps, suspension_write-Keeps,
}

cache-store : (now : ℕ) (s s' : Access) → IsLoaded now s s' → cache_of s' ≡ s'.store
cache-store now s s' l = ground (arith, l.copied)

All-take {ℓ κ} : {A : Type ℓ} (P : A → Type κ) (n : ℕ) (xs : List A) → All P xs → All P (take n xs)
All-take P zero xs h = tt
All-take P (suc n) [] h = tt
All-take P (suc n) (x ∷ xs) h = (h.0, All-take P n xs h.1)

All-taken :
    (P : StoreWrite → Type 0) (fails : Option ℕ) (ws : List StoreWrite)
    → All P ws
    → All P (taken fails ws)
All-taken P none ws h = h
All-taken P (some n) ws h = All-take P n ws h

All-snoc {ℓ κ} :
    {A : Type ℓ} (P : A → Type κ) (xs : List A) (y : A) → All P xs → P y → All P (xs ++ y ∷ [])
All-snoc P [] y h p = (p, tt)
All-snoc P (x ∷ xs) y h p = (h.0, All-snoc P xs y h.1 p)

-- The table that a refresh has written, before it is read anew.
abbrev written : ℕ → ℕ → Option ℕ → SyncAccessSnapshot → Access → Access
written lifetime now fails snapshot loaded = record {
  store = perform_all (taken fails (writes_of lifetime now snapshot loaded)) loaded.store;
  revocations = none;
  next_expiry = loaded.next_expiry;
}

written-Fresh :
    (lifetime now : ℕ) (fails : Option ℕ) (snapshot : SyncAccessSnapshot) (loaded : Access)
    → Fresh (written lifetime now fails snapshot loaded)
written-Fresh lifetime now fails snapshot loaded rs is = cc

pub refresh_store-Fresh :
    (lifetime now : ℕ) (fails : Option ℕ) (snapshot : SyncAccessSnapshot) (s : Access)
    → Fresh s
    → Fresh (refresh_store lifetime now fails snapshot s)
unfolding refresh_store
refresh_store-Fresh lifetime now fails snapshot s fresh = IsLoaded-Fresh now _ _ (
    load-IsLoaded now (written lifetime now fails snapshot (load now s))
      (written-Fresh lifetime now fails snapshot (load now s)))

module _ (user_id : String) (v t : ℕ) where
  refresh_store-keeps :
      (lifetime now : ℕ) (fails : Option ℕ) (snapshot : SyncAccessSnapshot) (s : Access)
      → Fresh s
      → now < t
      → Blocks user_id v t s.store
      → Blocks user_id v t (refresh_store lifetime now fails snapshot s).store
  unfolding refresh_store
  refresh_store-keeps lifetime now fails snapshot s fresh before b =
      let loaded = load now s in
      let blocked = load-Blocks user_id v t now s fresh before b in
      let copy = cache-store now s loaded (load-IsLoaded now s fresh) in
      load-Blocks user_id v t now (written lifetime now fails snapshot loaded)
        (written-Fresh lifetime now fails snapshot loaded) before
        (perform_all-Blocks user_id v t (taken fails (writes_of lifetime now snapshot loaded))
          loaded.store
          (All-taken (Keeps user_id v t) fails (writes_of lifetime now snapshot loaded) (
            All-snoc (Keeps user_id v t) _ _
              (grant_writes-Keeps user_id v t (cache_of loaded) (now + lifetime) snapshot.grants
                (subst (Blocks user_id v t) (sym copy) blocked))
              (suspension_write-Keeps user_id v t snapshot.suspended (now + lifetime))))
          blocked)

  require-keeps :
      (permitted : Bool) (now : ℕ) (input : VerifiedVaultAccess) (s : Access)
      → Fresh s
      → now < t
      → Blocks user_id v t s.store
      → Fresh (require permitted now input s).0
        × Blocks user_id v t (require permitted now input s).0.store
  unfolding require
  require-keeps false now input s fresh before b = (fresh, b)
  require-keeps true now input s fresh before b = (
    IsLoaded-Fresh now s _ (load-IsLoaded now s fresh),
    load-Blocks user_id v t now s fresh before b,
  )

  denial-Blocks :
      (rs : List Revocation) (user : String) (version : ℕ)
      → user ≡ user_id
      → version < v
      → Blocks user_id v t rs
      → (d : Denial) × (denial rs user version ≡ some d)
  unfolding denial
  denial-Blocks rs user version own low b =
      let found : find_revocation (user_revocation_key user) rs ≡ some b.row =
        ap (λ (u : String). find_revocation (user_revocation_key u) rs) own ∙ b.found in
      elim (Bool-cases (is_some (find_revocation vault_suspension_key rs))) [
        | inl paused ↦ (sharing_suspended, rw paused refl)
        | inr running ↦ (
          vault_access_denied,
          rw running (rw (found, b.bounded) (ground (arith, low, b.raised))),
        )
      ]

  require-refused :
      (now : ℕ) (input : VerifiedVaultAccess) (s : Access)
      → Fresh s
      → now < t
      → input.user_id ≡ user_id
      → input.access_version < v
      → Blocks user_id v t s.store
      → (d : Denial) × ((require true now input s).1 ≡ refused d)
  unfolding require
  require-refused now input s fresh before own low b =
      let loaded = load now s in
      let blocked =
        subst (Blocks user_id v t) (sym (cache-store now s loaded (load-IsLoaded now s fresh)))
          (load-Blocks user_id v t now s fresh before b) in
      let (d, denied) =
        denial-Blocks (cache_of loaded) input.user_id input.access_version own low blocked in
      (d, rw denied refl)

-- What may happen to the service before the time `t`.
pub data Use (t lifetime : ℕ) (s : Access) : Access → Type 0 where
  refreshed :
      (now : ℕ) (fails : Option ℕ) (snapshot : SyncAccessSnapshot)
      → now < t
      → Use t lifetime s (refresh_store lifetime now fails snapshot s)
  checked :
      (permitted : Bool) (now : ℕ) (input : VerifiedVaultAccess)
      → now < t
      → Use t lifetime s (require permitted now input s).0
  restarted : Use t lifetime s (record { store = s.store; revocations = none; next_expiry = none })

pub data Uses (t lifetime : ℕ) (s : Access) : Access → Type 0 where
  unused : Uses t lifetime s s
  used : {s' s'' : Access} → Uses t lifetime s s' → Use t lifetime s' s'' → Uses t lifetime s s''

module _ (user_id : String) (v lifetime : ℕ) where
  refresh_store-Blocks :
      (now : ℕ) (snapshot : SyncAccessSnapshot) (s : Access)
      → Fresh s
      → 0 < lifetime
      → 1 < v
      → All (AtLeast user_id v) snapshot.grants
      → Names user_id snapshot.grants
      → Blocks user_id v (now + lifetime) (refresh_store lifetime now none snapshot s).store
  unfolding refresh_store
  refresh_store-Blocks now snapshot s fresh lives up least named =
      let t = now + lifetime in
      let loaded = load now s in
      let ws = grant_writes (cache_of loaded) t snapshot.grants in
      load-Blocks user_id v t now (written lifetime now none snapshot loaded)
        (written-Fresh lifetime now none snapshot loaded) (omega arith)
        (perform_all-AnySets user_id v t (writes_of lifetime now snapshot loaded) loaded.store
          (All-snoc (Keeps user_id v t) ws _
            (AtLeast-grant_writes user_id v t (cache_of loaded) snapshot.grants least)
            (suspension_write-Keeps user_id v t snapshot.suspended t))
          (AnySets-snoc user_id v t ws _
            (grant_writes-AnySets user_id v t (cache_of loaded) snapshot.grants up least named)))

  -- What is blocked stays so, before the time `t`.
  Uses-Blocks :
      (t : ℕ) (s s' : Access)
      → Uses t lifetime s s'
      → Fresh s
      → Blocks user_id v t s.store
      → Fresh s' × Blocks user_id v t s'.store
  Uses-Blocks t s s' unused fresh b = (fresh, b)
  Uses-Blocks t s s'' (used {s'} us u) fresh b =
      let (fresh', b') = Uses-Blocks t s s' us fresh b in by_use s' s'' u fresh' b'
    where
      by_use :
          (s s' : Access)
          → Use t lifetime s s'
          → Fresh s
          → Blocks user_id v t s.store
          → Fresh s' × Blocks user_id v t s'.store
      by_use s s' (refreshed now fails snapshot before) fresh b = (
        refresh_store-Fresh lifetime now fails snapshot s fresh,
        refresh_store-keeps user_id v t lifetime now fails snapshot s fresh before b,
      )
      by_use s s' (checked permitted now input before) fresh b =
          require-keeps user_id v t permitted now input s fresh before b
      by_use s s' restarted fresh b = ((λ rs is. cc), b)

-- After a refresh that is not cut short and whose snapshot grants a user nothing below the version
-- `v`, but something, every check of the user with a lower version is refused until the lifetime of
-- tokens has passed, whatever the service does in between: refreshes with any other snapshots, cut
-- short or not, checks, and restarts.
pub require-Blocks :
    (user_id : String) (v lifetime now later : ℕ) (snapshot : SyncAccessSnapshot) (s s' : Access)
    (input : VerifiedVaultAccess)
    → Fresh s
    → 0 < lifetime
    → 1 < v
    → All (AtLeast user_id v) snapshot.grants
    → Names user_id snapshot.grants
    → Uses (now + lifetime) lifetime (refresh_store lifetime now none snapshot s) s'
    → later < now + lifetime
    → input.user_id ≡ user_id
    → input.access_version < v
    → (d : Denial) × ((require true later input s').1 ≡ refused d)
require-Blocks user_id v lifetime now later snapshot s s' input fresh lives up least named us before
      own low =
    let (fresh', b) =
      Uses-Blocks user_id v lifetime (now + lifetime) (refresh_store lifetime now none snapshot s)
        s' us (refresh_store-Fresh lifetime now none snapshot s fresh)
        (refresh_store-Blocks user_id v lifetime now snapshot s fresh lives up least named) in
    require-refused user_id v (now + lifetime) later input s' fresh' before own low b
