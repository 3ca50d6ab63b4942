-- ===== src/PluginVersion/Order.antt =====
-- The check of a version against the order of versions.
use synch_api.Prelude.{
  ℕ, ◌<◌, ◌≡◌, ◌↔◌, ◌⊎◌, inl, inr, refl, Option, some, arith, Bool-cases, ◌==◌, or_else,
}
use synch_api.PluginVersion.Policy.{
  update_required, PluginVersionCheck, status_of, compare_parsed, compare_strict_semver,
  check_obsidian_plugin_version, synch_api_major_version,
}
use synch_api.PluginVersion.Prints.{print_version, parse_strict_semver-print_version_natural}

-- The order of versions: by the major number, then the minor one, then the patch.
abbrev pub Before : ℕ × ℕ × ℕ → ℕ × ℕ × ℕ → Type 0
Before (major, minor, patch) (major', minor', patch') =
    (major < major')
    ⊎ ((major ≡ major') × (minor < minor'))
    ⊎ ((major ≡ major') × (minor ≡ minor') × (patch < patch'))

status_of-compare_parsed :
    (v least : ℕ × ℕ × ℕ) → (status_of (compare_parsed v least) ≡ update_required) ↔ Before v least
status_of-compare_parsed (major, minor, patch) (major', minor', patch') =
    elim (Bool-cases (major == major')) [
      | inl same_major ↦ elim (Bool-cases (minor == minor')) [
        | inl same_minor ↦
            (λ e. inr (inr (ground arith, ground arith, ground arith)), λ h. ground arith)
        | inr other_minor ↦ (λ e. inr (inl (ground arith, ground arith)), λ h. ground arith)
      ]
      | inr other_major ↦ (λ e. inl (ground arith), λ h. ground arith)
    ]

-- The check of a version that is written out, against a least version that is written out, succeeds
-- and asks for an update exactly if the version comes before the least one.
pub check_obsidian_plugin_version-Before :
    (least v : ℕ × ℕ × ℕ) (api_major : Option ℕ)
    → (r : PluginVersionCheck) × (check_obsidian_plugin_version
          (some (print_version least))
          api_major
          (print_version v)
        ≡ some r)
      × ((r.status ≡ update_required) ↔ Before v least)
unfolding check_obsidian_plugin_version compare_strict_semver
check_obsidian_plugin_version-Before least v api_major = (
  record {
    status = status_of (compare_parsed v least);
    min_version = print_version least;
    api_major = or_else api_major synch_api_major_version;
  },
  rw (parse_strict_semver-print_version_natural least, parse_strict_semver-print_version_natural v)
      refl,
  status_of-compare_parsed v least,
)
