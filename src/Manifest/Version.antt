-- ===== src/Manifest/Version.antt =====
-- `_stable_version`, and the order of the tuples that it gives.
use yuelink_ci.Prelude.{ℕ, ◌+◌, ◌*◌, ◌-◌, Bool, false, ◌&&◌, ◌||◌, not, List, [], ◌∷◌}
use yuelink_ci.Prelude.{Option, some, codes, is_digit, split, all, ltb, length, ◌==◌}
use yuelink_ci.Prelude.{nat_eq, if◌then◌else◌}
use yuelink_ci.Prelude.Result.{Result, ok, err, value_error}
use yuelink_ci.Json.{Json, str}

abbrev pub Version : Type 0
Version = ℕ × ℕ × ℕ

-- `int(part)` of a part of digits.
unfoldable pub decimal : ℕ → List ℕ → ℕ
decimal acc [] = acc
decimal acc (c ∷ cs) = decimal (acc * 10 + (c - 48)) cs

abbrev starts_with_zero : List ℕ → Bool
starts_with_zero [] = false
starts_with_zero (c ∷ cs) = c == b'0'

-- `part.isascii() and part.isdigit()`, and no zero before another digit.
unfoldable pub is_component : List ℕ → Bool
is_component [] = false
is_component (c ∷ cs) =
    all is_digit (c ∷ cs) && not (ltb 1 (length (c ∷ cs)) && starts_with_zero (c ∷ cs))

abbrev of_parts : List (List ℕ) → Result Version
of_parts (a ∷ b ∷ c ∷ []) =
    if is_component a && is_component b && is_component c
    then ok (decimal 0 a, decimal 0 b, decimal 0 c)
    else err (value_error "stable manifest version must be canonical X.Y.Z")
of_parts parts = err (value_error "stable manifest version must be canonical X.Y.Z")

-- `_stable_version(manifest.get("version"))`
unfoldable pub stable_version : Option Json → Result Version
stable_version (some (str s)) = of_parts (split b'.' (codes s))
stable_version v = err (value_error "stable manifest version must be X.Y.Z")

-- `a < b` of two tuples.
unfoldable pub version_ltb : Version → Version → Bool
version_ltb (a, b, c) (x, y, z) = ltb a x || a == x && (ltb b y || b == y && ltb c z)
