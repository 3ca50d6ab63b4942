-- ===== src/Prelude/Text.antt =====
-- Strings as the program uses them: equality, truthiness and `trim`.
use Prim.Native.Nat.{ℕ}
use Prim.Native.Char.{Char, code}
use Prim.Native.String.{String, [], ◌∷◌}
use mathlib.Core.Path.{◌≡◌}
use mathlib.Core.Logic.{ite, dite}
use mathlib.Core.Bool.{Bool, true, false, ◌&&◌, ◌||◌, Bool-discrete}
use mathlib.Core.Option.{Option, none, some}
use native.Mathlib.Omega.{arith}
use text.Mathlib.Text.{◌==◌ as str_eq}
use text.Mathlib.TextEquality.{eq_iff}
use synch_api.Prelude.Tests.{leb, ◌==◌, if◌then◌else◌}

-- Shut in proofs, where a split on it yields the equation or its negation.
unfoldable pub string_dec : Discrete String
string_dec s t =
    dite (Bool-discrete (str_eq s t) true) (λ same. yes ((eq_iff s t).0 same))
      (λ differ. no (λ p. differ ((eq_iff s t).1 p)))

-- `s === t`
abbrev pub same : String → String → Bool
same s t = ite (string_dec s t) true false

-- A nullable value against a string: `o === t`.
abbrev pub same? : Option String → String → Bool
same? none t = false
same? (some s) t = same s t

pub same_self : (s : String) → same s s ≡ true
same_self s = ground arith

-- A nullable string under `if (s)`: `null` and `""` are false.
abbrev pub truthy : Option String → Option String
truthy none = none
truthy (some s) = if same s "" then none else some s

-- WhiteSpace and LineTerminator of ECMAScript.
abbrev white : ℕ → Bool
white c =
    (leb 9 c && leb c 13)
    || c == 32
    || c == 0xa0
    || c == 0x1680
    || (leb 0x2000 c && leb c 0x200a)
    || c == 0x2028
    || c == 0x2029
    || c == 0x202f
    || c == 0x205f
    || c == 0x3000
    || c == 0xfeff

trim_start : String → String
trim_start [] = []
trim_start (c ∷ s) = let rest = trim_start s in if white (code c) then rest else c ∷ s

-- A character before a text whose trailing white space is gone.
before : Char → String → String
before c [] = if white (code c) then [] else c ∷ []
before c (d ∷ s) = c ∷ d ∷ s

trim_end : String → String
unfolding before
trim_end [] = []
trim_end (c ∷ s) = before c (trim_end s)

-- `s.trim()`
unfoldable pub trim : String → String
unfolding trim_start trim_end
trim s = trim_end (trim_start s)
