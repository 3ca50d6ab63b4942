-- ===== src/Access/Service.antt =====
-- src/sync-coordinator/application/services/sync-access-service.ts. The snapshot that `refresh`
-- awaits is an argument; what follows it runs without giving way. A refresh may be cut short by a
-- write that the store throws at. `Infinity` is `none`.
use synch_api.Prelude.{
  ℕ, ◌+◌, String, Bool, true, false, not, Option, none, some, List, [], ◌∷◌, ◌++◌, leb, ltb, max,
  min, if◌then◌else◌, is_some, or_else, same, select, take,
}
use synch_api.Access.Revocations.{
  Revocation, vault_suspension_key, user_revocation_key, find_revocation, write_revocation,
  delete_revocation, prune,
}

pub record VerifiedVaultAccess : Type 0 where
  pub vault_id : String
  pub user_id : String
  pub access_version : ℕ

pub record Grant : Type 0 where
  pub user_id : String
  pub access_version : ℕ

pub record SyncAccessSnapshot : Type 0 where
  pub suspended : Bool
  pub grants : List Grant

-- The table, with the service's copy of it and the first time at which a row of the copy expires.
pub record Access : Type 0 where
  pub store : List Revocation
  pub revocations : Option (List Revocation)
  pub next_expiry : Option ℕ

abbrev sooner : ℕ → Option ℕ → ℕ
sooner a none = a
sooner a (some b) = min a b

unfoldable pub earliest_expiry : List Revocation → Option ℕ
earliest_expiry [] = none
earliest_expiry (r ∷ rs) = some (sooner r.expires_at (earliest_expiry rs))

-- `this.nextExpiry > now`
abbrev pub none_expired : Option ℕ → ℕ → Bool
none_expired none now = true
none_expired (some t) now = ltb now t

abbrev pub cache_of : Access → List Revocation
cache_of s = or_else s.revocations s.store

abbrev pub next_of : Access → Option ℕ
next_of s = elim s.revocations [ none ↦ earliest_expiry s.store | some rs ↦ s.next_expiry ]

unfoldable pub load : ℕ → Access → Access
load now s =
    if none_expired (next_of s) now
    then record { store = s.store; revocations = some (cache_of s); next_expiry = next_of s }
    else record {
      store = prune now s.store;
      revocations = some (prune now (cache_of s));
      next_expiry = earliest_expiry (prune now (cache_of s));
    }

pub data Denial : Type 0 where
  sharing_suspended vault_access_denied : Denial

abbrev version_denied : Option ℕ → ℕ → Option Denial
version_denied none version = none
version_denied (some minimum) version =
    if ltb version minimum then some vault_access_denied else none

abbrev user_denied : Option Revocation → ℕ → Option Denial
user_denied none version = none
user_denied (some r) version = version_denied r.minimum_version version

unfoldable pub denial : List Revocation → String → ℕ → Option Denial
denial rs user_id version =
    if is_some (find_revocation vault_suspension_key rs)
    then some sharing_suspended
    else user_denied (find_revocation (user_revocation_key user_id) rs) version

pub data Verdict : Type 0 where
  granted not_allowed : Verdict
  refused : Denial → Verdict

abbrev verdict_of : Option Denial → Verdict
verdict_of none = granted
verdict_of (some d) = refused d

-- `require`, where `allowed` is whether `assertSyncAllowed` lets the call pass.
unfoldable pub require : Bool → ℕ → VerifiedVaultAccess → Access → Access × Verdict
require false now input s = (s, not_allowed)
require true now input s =
    let loaded = load now s in
    (loaded, verdict_of (denial (cache_of loaded) input.user_id input.access_version))

pub data VaultAccessDecision : Type 0 where
  allowed : VaultAccessDecision
  forbidden : (code : Denial) → VaultAccessDecision
  unavailable : VaultAccessDecision

-- A refusal is a SharingError of status 403; what `assertSyncAllowed` throws is another error.
abbrev decide : Verdict → VaultAccessDecision
decide granted = allowed
decide not_allowed = unavailable
decide (refused d) = forbidden d

abbrev pub authorize_verified :
    Bool → ℕ → VerifiedVaultAccess → Access → Access × VaultAccessDecision
authorize_verified permitted now input s =
    let (s', verdict) = require permitted now input s in (s', decide verdict)

pub data StoreWrite : Type 0 where
  write : Revocation → StoreWrite
  delete : String → StoreWrite

abbrev pub minimum_of : Option Revocation → ℕ
minimum_of none = 0
minimum_of (some r) = or_else r.minimum_version 0

abbrev expiry_of : Option Revocation → ℕ
expiry_of none = 0
expiry_of (some r) = r.expires_at

-- The row that a grant asks for, over the one that the service knows.
abbrev pub revocation_for : List Revocation → ℕ → Grant → Revocation
revocation_for rs expires_at g =
    let key = user_revocation_key g.user_id in
    let previous = find_revocation key rs in
    record {
      key = key;
      minimum_version = some (max g.access_version (minimum_of previous));
      expires_at = max expires_at (expiry_of previous);
    }

unfoldable pub grant_writes : List Revocation → ℕ → List Grant → List StoreWrite
grant_writes rs expires_at [] = []
grant_writes rs expires_at (g ∷ gs) =
    let rest = grant_writes rs expires_at gs in
    if leb g.access_version 1 then rest else write (revocation_for rs expires_at g) ∷ rest

abbrev pub suspension_write : Bool → ℕ → StoreWrite
suspension_write true expires_at =
    write (record { key = vault_suspension_key; minimum_version = none; expires_at = expires_at })
suspension_write false expires_at = delete vault_suspension_key

abbrev pub perform : StoreWrite → List Revocation → List Revocation
perform (write r) rs = write_revocation r rs
perform (delete key) rs = delete_revocation key rs

unfoldable pub perform_all : List StoreWrite → List Revocation → List Revocation
perform_all [] rs = rs
perform_all (w ∷ ws) rs = perform_all ws (perform w rs)

-- The writes that the store takes: all, or those before the one that it throws at.
abbrev pub taken : Option ℕ → List StoreWrite → List StoreWrite
taken none ws = ws
taken (some n) ws = take n ws

-- A socket's session, `session.accessVersion ?? 1`.
pub record Connection : Type 0 where
  pub connection_id : String
  pub user_id : String
  pub access_version : ℕ

-- `closeSocket`: a connection's id belongs to one socket.
abbrev pub close_socket : String → List Connection → List Connection
close_socket id sockets = select (λ c. not (same c.connection_id id)) sockets

unfoldable pub close_denied_from :
    List Revocation → List Connection → List Connection → List Connection
close_denied_from rs [] sockets = sockets
close_denied_from rs (c ∷ cs) sockets = close_denied_from rs cs (
    if is_some (denial rs c.user_id c.access_version)
    then close_socket c.connection_id sockets
    else sockets)

unfoldable pub close_denied_sockets : List Revocation → List Connection → List Connection
close_denied_sockets rs sockets = close_denied_from rs sockets sockets

-- The writes of a refresh on what the service has loaded.
abbrev pub writes_of : ℕ → ℕ → SyncAccessSnapshot → Access → List StoreWrite
writes_of lifetime now snapshot loaded =
    grant_writes (cache_of loaded) (now + lifetime) snapshot.grants
    ++ suspension_write snapshot.suspended (now + lifetime) ∷ []

-- `refresh` once the snapshot is there, up to the sockets: the copy is read anew either way.
unfoldable pub refresh_store : ℕ → ℕ → Option ℕ → SyncAccessSnapshot → Access → Access
refresh_store lifetime now fails snapshot s =
    let loaded = load now s in
    load now (record {
      store = perform_all (taken fails (writes_of lifetime now snapshot loaded)) loaded.store;
      revocations = none;
      next_expiry = loaded.next_expiry;
    })

-- The sockets of a refresh that was not cut short are looked through.
unfoldable pub refresh :
    ℕ → ℕ → Option ℕ → SyncAccessSnapshot → Access → List Connection → Access × List Connection
refresh lifetime now none snapshot s sockets =
    let s' = refresh_store lifetime now none snapshot s in
    (s', close_denied_sockets (cache_of s') sockets)
refresh lifetime now (some n) snapshot s sockets =
    (refresh_store lifetime now (some n) snapshot s, sockets)
