-- ===== src/PluginVersion/Prints.antt =====
-- Versions as they are written, against the parser.
use Prim.Native.Char.{Char, char, code}
use Prim.Native.String.{String, [], ◌∷◌}
use synch_api.Prelude.{
  ℕ, zero, suc, ◌+◌, ◌*◌, ◌/◌, ◌%◌, ◌≤◌, ◌<◌, ◌^◌, ◌≡◌, inl, inr, refl, ap, ◌∙◌, true, false, some,
  ltb, ◌==◌, arith, if◌then◌else◌, Bool-cases,
}
use synch_api.PluginVersion.Policy.{
  is_digit, read_digits, read_number, read_dot, parse_strict_semver,
}

abbrev digit : ℕ → Char
digit zero = char 48 tt
digit (suc zero) = char 49 tt
digit (suc (suc zero)) = char 50 tt
digit (suc (suc (suc zero))) = char 51 tt
digit (suc (suc (suc (suc zero)))) = char 52 tt
digit (suc (suc (suc (suc (suc zero))))) = char 53 tt
digit (suc (suc (suc (suc (suc (suc zero)))))) = char 54 tt
digit (suc (suc (suc (suc (suc (suc (suc zero))))))) = char 55 tt
digit (suc (suc (suc (suc (suc (suc (suc (suc zero)))))))) = char 56 tt
digit _ = char 57 tt

code-digit : (d : ℕ) → d < 10 → code (digit d) ≡ 48 + d
code-digit zero h = refl
code-digit (suc zero) h = refl
code-digit (suc (suc zero)) h = refl
code-digit (suc (suc (suc zero))) h = refl
code-digit (suc (suc (suc (suc zero)))) h = refl
code-digit (suc (suc (suc (suc (suc zero))))) h = refl
code-digit (suc (suc (suc (suc (suc (suc zero)))))) h = refl
code-digit (suc (suc (suc (suc (suc (suc (suc zero))))))) h = refl
code-digit (suc (suc (suc (suc (suc (suc (suc (suc zero)))))))) h = refl
code-digit (suc (suc (suc (suc (suc (suc (suc (suc (suc zero))))))))) h = refl
code-digit (suc (suc (suc (suc (suc (suc (suc (suc (suc (suc n)))))))))) h = absurd (omega arith)

-- The decimal digits of a number before a text, the last ones first; the first argument bounds their
-- count.
unfoldable pub print_before : ℕ → ℕ → String → String
print_before zero n s = digit n ∷ s
print_before (suc fuel) n s =
    let more = print_before fuel (n / 10) (digit (n % 10) ∷ s) in
    if ltb n 10 then digit n ∷ s else more

abbrev dot : Char
dot = char 46 tt

-- A version as it is written.
unfoldable pub print_version : ℕ × ℕ × ℕ → String
print_version (major, minor, patch) =
    print_before major major (dot ∷ print_before minor minor (dot ∷ print_before patch patch []))

read_digits-digit :
    (n d : ℕ) (s : String) → d < 10 → read_digits n (digit d ∷ s) ≡ read_digits (n * 10 + d) s
unfolding read_digits
read_digits-digit n d s h =
    let is = code-digit d h in
    let one : is_digit (digit d) ≡ true = ground (arith, is, h) in
    rw one (ap (λ (v : ℕ). read_digits (n * 10 + v) s) (omega (arith, is)))

read_number-digit :
    (d : ℕ) (s : String) → d < 10 → 0 < d → read_number (digit d ∷ s) ≡ some (read_digits d s)
unfolding read_number
read_number-digit d s h up =
    let is = code-digit d h in
    let nonzero : (code (digit d) == 48) ≡ false = ground (arith, is, up) in
    let one : is_digit (digit d) ≡ true = ground (arith, is, h) in
    rw (nonzero, one) (ap (λ (v : ℕ). some (read_digits v s)) (omega (arith, is)))

read_number-print_before :
    (fuel n : ℕ) (s : String)
    → n ≤ fuel
    → 0 < n
    → read_number (print_before fuel n s) ≡ some (read_digits n s)
unfolding print_before
read_number-print_before zero n s h up = absurd (omega (arith, h, up))
read_number-print_before (suc fuel) n s h up = elim (Bool-cases (ltb n 10)) [
  | inl small ↦ rw small (read_number-digit n s (ground arith) up)
  | inr big ↦
      let ten : 10 ≤ n = ground arith in
      rw big (
        read_number-print_before fuel (n / 10) (digit (n % 10) ∷ s) (omega (arith, h, ten))
          (omega (arith, ten))
        ∙ ap some (read_digits-digit (n / 10) (n % 10) s (omega arith))
        ∙ ap (λ (v : ℕ). some (read_digits v s)) (omega arith))
]

-- A text that no digit begins.
abbrev Stops : String → Type 0
Stops s = (n : ℕ) → read_digits n s ≡ (n, s)

dot-Stops : (s : String) → Stops (dot ∷ s)
unfolding read_digits
dot-Stops s n = refl

nil-Stops : Stops []
unfolding read_digits
nil-Stops n = refl

read_number-print : (n : ℕ) (s : String) → Stops s → read_number (print_before n n s) ≡ some (n, s)
unfolding read_number print_before
read_number-print zero s stops = refl
read_number-print (suc n) s stops =
    read_number-print_before (suc n) (suc n) s (omega arith) (omega arith) ∙ ap some (stops (suc n))

-- On the natural numbers.
pub parse_strict_semver-print_version_natural :
    (v : ℕ × ℕ × ℕ) → parse_strict_semver (print_version v) ≡ some v
unfolding parse_strict_semver print_version read_dot
parse_strict_semver-print_version_natural (major, minor, patch) =
    rw
      (read_number-print major (dot ∷ print_before minor minor (dot ∷ print_before patch patch []))
        (dot-Stops _))
      (rw (read_number-print minor (dot ∷ print_before patch patch []) (dot-Stops _))
        (rw (read_number-print patch [] nil-Stops) refl))

-- The numbers of a version are below 2^53, where `Number` reads every one exactly.
abbrev pub IsExact : ℕ × ℕ × ℕ → Type 0
IsExact (major, minor, patch) = (major < 2 ^ 53) × (minor < 2 ^ 53) × (patch < 2 ^ 53)

-- A version whose numbers are below 2^53 is read back by the parser as it was written.
pub parse_strict_semver-print_version :
    (v : ℕ × ℕ × ℕ) → IsExact v → parse_strict_semver (print_version v) ≡ some v
parse_strict_semver-print_version v exact = parse_strict_semver-print_version_natural v
