-- ===== src/PluginVersion/Tests.antt =====
-- Versions that are written out.
use synch_api.Prelude.{◌≡◌, ◌↔◌, refl, none, some, false, arith}
use synch_api.PluginVersion.Policy.{
  read_digits, read_number, read_dot, parse_strict_semver, compare_strict_semver,
  check_obsidian_plugin_version, PluginVersionCheck, supported, update_required, is_strict_semver,
}
use synch_api.PluginVersion.Prints.{print_before, print_version, parse_strict_semver-print_version}
use synch_api.PluginVersion.Order.{Before, check_obsidian_plugin_version-Before}

prints : print_version (0, 12, 305) ≡ "0.12.305"
unfolding print_version print_before
prints = refl

refuses_zeros : is_strict_semver "0.05.1" ≡ false
unfolding parse_strict_semver read_number read_digits read_dot
refuses_zeros = refl

refuses_more : is_strict_semver "1.2.3-beta" ≡ false
unfolding parse_strict_semver read_number read_digits read_dot
refuses_more = refl

supports :
    check_obsidian_plugin_version none none "0.12.0"
    ≡ some (record { status = supported; min_version = "0.5.5"; api_major = 1 })
unfolding check_obsidian_plugin_version compare_strict_semver parse_strict_semver read_number
    read_digits read_dot
supports = refl

parse_strict_semver-print_version_example :
    parse_strict_semver (print_version (0, 12, 305)) ≡ some (0, 12, 305)
parse_strict_semver-print_version_example =
    parse_strict_semver-print_version (0, 12, 305) (omega arith, omega arith, omega arith)

check_obsidian_plugin_version-Before_example :
    (r : PluginVersionCheck) × (check_obsidian_plugin_version
        (some (print_version (0, 5, 5)))
        none
        (print_version (0, 5, 4))
      ≡ some r)
    × ((r.status ≡ update_required) ↔ Before (0, 5, 4) (0, 5, 5))
check_obsidian_plugin_version-Before_example =
    check_obsidian_plugin_version-Before (0, 5, 5) (0, 5, 4) none
