-- ===== src/Access/Tests.antt =====
-- Refreshes and checks on a concrete vault.
use synch_api.Prelude.{
  ◌≡◌, refl, inl, true, false, none, some, List, [], ◌∷◌, arith, string_dec, All, ◌+◌,
}
use synch_api.Access.Revocations.{
  user_revocation_key, find_revocation, write_revocation, delete_revocation, prune,
}
use synch_api.Access.Service.{
  Access, SyncAccessSnapshot, VerifiedVaultAccess, Connection, Denial, granted, refused,
  earliest_expiry, load, denial, require, grant_writes, perform_all, refresh_store,
  close_denied_from, close_denied_sockets, refresh, cache_of,
}
use synch_api.Access.Blocks.{Fresh}
use synch_api.Access.Uses.{Uses, unused, used, refreshed, restarted, require-Blocks}
use synch_api.Access.Sockets.{refresh-Allowed}

-- Opens all that a refresh computes with.
runs : Unit {0}
unfolding string_dec user_revocation_key find_revocation write_revocation delete_revocation prune
    earliest_expiry load denial require grant_writes perform_all refresh_store close_denied_from
    close_denied_sockets refresh
runs = tt

abbrev new_access : Access
new_access = record { store = []; revocations = none; next_expiry = none }

new_access-Fresh : Fresh new_access
new_access-Fresh rs is = cc

-- Ada's access has changed, and the vault is not suspended.
abbrev changed : SyncAccessSnapshot
changed = record { suspended = false; grants = record { user_id = "ada"; access_version = 3 } ∷ [] }

-- An older reading of the grants.
abbrev stale : SyncAccessSnapshot
stale = record { suspended = true; grants = record { user_id = "ada"; access_version = 2 } ∷ [] }

abbrev input : VerifiedVaultAccess
input = record { vault_id = "v1"; user_id = "ada"; access_version = 2 }

abbrev later : Access
later = refresh_store 120_000 60_000 (some 1) stale (record {
  store = (refresh_store 120_000 1000 none changed new_access).store;
  revocations = none;
  next_expiry = none;
})

later-Uses :
    Uses (1000 + 120_000) 120_000 (refresh_store 120_000 1000 none changed new_access) later
later-Uses = used (used unused restarted) (refreshed 60_000 (some 1) stale (omega arith))

require-Blocks_example : (d : Denial) × ((require true 100_000 input later).1 ≡ refused d)
require-Blocks_example =
    require-Blocks "ada" 3 120_000 1000 100_000 changed new_access later input new_access-Fresh
      (omega arith) (omega arith) ((λ own. omega arith), tt) (inl refl) later-Uses (omega arith)
      refl (omega arith)

-- After the lifetime of the tokens the version is judged by its token alone.
runs_out :
    (require true 200_000 input (refresh_store 120_000 1000 none changed new_access)).1 ≡ granted
unfolding runs
runs_out = refl

abbrev sockets : List Connection
sockets =
    record { connection_id = "c1"; user_id = "ada"; access_version = 2 }
    ∷ record { connection_id = "c2"; user_id = "bob"; access_version = 1 }
    ∷ []

keeps_bob :
    (refresh 120_000 1000 none changed new_access sockets).1
    ≡ record { connection_id = "c2"; user_id = "bob"; access_version = 1 } ∷ []
unfolding runs
keeps_bob = refl

refresh-Allowed_example :
    All
      (λ (c : Connection).
        denial
          (cache_of (refresh 120_000 1000 none changed new_access sockets).0)
          c.user_id
          c.access_version
        ≡ none)
      (refresh 120_000 1000 none changed new_access sockets).1
refresh-Allowed_example = refresh-Allowed 120_000 1000 changed new_access sockets
