-- ===== src/PluginVersion/Policy.antt =====
-- src/plugin-version/policy.ts. The regular expression is written as the reading of its parts. The
-- numbers of a version are natural: `Number` agrees with that below 2^53, and rounds from there on. A
-- throw is `none`. The message of an update, which is a constant, is left out.
use Prim.Native.Char.{Char, code}
use Prim.Native.String.{String, [], ◌∷◌}
use synch_api.Prelude.{
  ℕ, ◌+◌, ◌-◌, ◌*◌, Bool, not, ◌&&◌, Option, none, some, leb, ◌==◌, if◌then◌else◌, is_some, or_else,
}

-- The difference of two numbers.
pub data ℤ : Type 0 where
  pos : ℕ → ℤ
  negsuc : ℕ → ℤ

abbrev subtract : ℕ → ℕ → ℤ
subtract a b = if leb b a then pos (a - b) else negsuc (b - a - 1)

abbrev min_supported_obsidian_plugin_version : String
min_supported_obsidian_plugin_version = "0.5.5"

abbrev pub synch_api_major_version : ℕ
synch_api_major_version = 1

-- `\d`
abbrev pub is_digit : Char → Bool
is_digit c = leb 48 (code c) && leb (code c) 57

-- `\d*`, after digits that make `n`, with what is left.
unfoldable pub read_digits : ℕ → String → ℕ × String
read_digits n [] = (n, [])
read_digits n (c ∷ s) =
    let rest = read_digits (n * 10 + (code c - 48)) s in if is_digit c then rest else (n, c ∷ s)

-- `0|[1-9]\d*`
unfoldable pub read_number : String → Option (ℕ × String)
read_number [] = none
read_number (c ∷ s) =
    if code c == 48
    then some (0, s)
    else if is_digit c
    then some (read_digits (code c - 48) s)
    else none

-- `\.`
unfoldable pub read_dot : String → Option String
read_dot [] = none
read_dot (c ∷ s) = if code c == 46 then some s else none

abbrev pub and_then {ℓ κ} : {A : Type ℓ} {B : Type κ} → Option A → (A → Option B) → Option B
and_then none f = none
and_then (some a) f = f a

abbrev at_end : ℕ → ℕ → ℕ × String → Option (ℕ × ℕ × ℕ)
at_end major minor (patch, []) = some (major, minor, patch)
at_end major minor (patch, c ∷ s) = none

unfoldable pub parse_strict_semver : String → Option (ℕ × ℕ × ℕ)
parse_strict_semver s = and_then (read_number s) (λ major. and_then (read_dot major.1) (λ s1.
    and_then (read_number s1) (λ minor.
      and_then (read_dot minor.1)
        (λ s2. and_then (read_number s2) (λ patch. at_end major.0 minor.0 patch)))))

abbrev pub is_strict_semver : String → Bool
is_strict_semver value = is_some (parse_strict_semver value)

-- The first difference that is not zero.
abbrev pub compare_parsed : ℕ × ℕ × ℕ → ℕ × ℕ × ℕ → ℤ
compare_parsed (major, minor, patch) (major', minor', patch') =
    if not (major == major')
    then subtract major major'
    else if not (minor == minor')
    then subtract minor minor'
    else subtract patch patch'

abbrev compare_read : Option (ℕ × ℕ × ℕ) → Option (ℕ × ℕ × ℕ) → Option ℤ
compare_read (some left) (some right) = some (compare_parsed left right)
compare_read _ _ = none

unfoldable pub compare_strict_semver : String → String → Option ℤ
compare_strict_semver left right =
    compare_read (parse_strict_semver left) (parse_strict_semver right)

pub data VersionStatus : Type 0 where
  supported update_required : VersionStatus

pub record PluginVersionCheck : Type 0 where
  pub status : VersionStatus
  pub min_version : String
  pub api_major : ℕ

abbrev pub status_of : ℤ → VersionStatus
status_of (pos n) = supported
status_of (negsuc n) = update_required

abbrev check_against : String → ℕ → Option ℤ → Option PluginVersionCheck
check_against min_version api_major none = none
check_against min_version api_major (some difference) =
    some
      (record { status = status_of difference; min_version = min_version; api_major = api_major })

-- The options' least version and major version, or the defaults.
unfoldable pub check_obsidian_plugin_version :
    Option String → Option ℕ → String → Option PluginVersionCheck
check_obsidian_plugin_version min_version api_major current =
    let least = or_else min_version min_supported_obsidian_plugin_version in
    check_against least (or_else api_major synch_api_major_version)
      (compare_strict_semver current least)
