-- ===== src/Access/Revocations.antt =====
-- src/sync-coordinator/adapters/outbound/sqlite/sync-access-store.ts: the table of revocations. The
-- Map of the service is the list that it is made from, whose keys are the table's.
use Prim.Native.String.{◌++◌ as append}
use text.Mathlib.Text.{starts_with}
use text.Mathlib.TextPositions.{starts_with-append}
use text.Mathlib.TextLemmas.{append_cancel_left}
use synch_api.Prelude.{
  ℕ, ◌≡◌, ◌≢◌, refl, sym, ap, ◌∙◌, String, true, false, Option, none, some, List, [], ◌∷◌, arith,
  leb, not, if◌then◌else◌, same, select,
}

pub record Revocation : Type 0 where
  pub key : String
  pub minimum_version : Option ℕ
  pub expires_at : ℕ

abbrev pub vault_suspension_key : String
vault_suspension_key = "vault"

unfoldable pub user_revocation_key : String → String
user_revocation_key user_id = append "user:" user_id

unfoldable pub find_revocation : String → List Revocation → Option Revocation
find_revocation key [] = none
find_revocation key (r ∷ rs) =
    let rest = find_revocation key rs in if same r.key key then some r else rest

-- INSERT … ON CONFLICT (key) DO UPDATE
unfoldable pub write_revocation : Revocation → List Revocation → List Revocation
write_revocation entry [] = entry ∷ []
write_revocation entry (r ∷ rs) =
    let rest = write_revocation entry rs in if same r.key entry.key then entry ∷ rs else r ∷ rest

unfoldable pub delete_revocation : String → List Revocation → List Revocation
delete_revocation key rs = select (λ r. not (same r.key key)) rs

-- DELETE … WHERE expires_at <= ?
unfoldable pub prune : ℕ → List Revocation → List Revocation
prune now rs = select (λ r. not (leb r.expires_at now)) rs

pub user_revocation_key-injective :
    (u v : String) → user_revocation_key u ≡ user_revocation_key v → u ≡ v
unfolding user_revocation_key
user_revocation_key-injective u v e = append_cancel_left "user:" u v e

pub user_revocation_key-ne : (u : String) → user_revocation_key u ≢ vault_suspension_key
unfolding user_revocation_key
user_revocation_key-ne u e =
    true-ne (sym (starts_with-append "user:" u) ∙ ap (λ (s : String). starts_with s "user:") e)
  where
    true-ne : true ≢ false
    true-ne p = cc

pub find_revocation-write_revocation :
    (key : String) (entry : Revocation) (rs : List Revocation)
    → find_revocation key (write_revocation entry rs)
      ≡ (if same entry.key key then some entry else find_revocation key rs)
unfolding find_revocation write_revocation
find_revocation-write_revocation key entry [] = refl
find_revocation-write_revocation key entry (r ∷ rs) =
    ground (arith, find_revocation-write_revocation key entry rs)

pub find_revocation-delete_other :
    (key other : String) (rs : List Revocation)
    → same other key ≡ false
    → find_revocation key (delete_revocation other rs) ≡ find_revocation key rs
unfolding find_revocation delete_revocation
find_revocation-delete_other key other [] apart = refl
find_revocation-delete_other key other (r ∷ rs) apart =
    ground (arith, find_revocation-delete_other key other rs apart)

-- What has not expired is still found.
pub find_revocation-prune :
    (key : String) (now : ℕ) (rs : List Revocation) {r : Revocation}
    → find_revocation key rs ≡ some r
    → leb r.expires_at now ≡ false
    → find_revocation key (prune now rs) ≡ some r
unfolding find_revocation prune
find_revocation-prune key now [] found later = cc
find_revocation-prune key now (x ∷ xs) {r} found later =
    ground
      (arith, λ (p : find_revocation key xs ≡ some r). find_revocation-prune key now xs p later)
