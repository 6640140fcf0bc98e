-- ===== src/Json/Keys.antt =====
-- JSON values as keys of a Python dictionary, and as members of a set of texts.
use yuelink_ci.Prelude.{String, Bool, true, false, List, [], ◌∷◌, Option, none, some, contains}
use yuelink_ci.Prelude.{◌==◌, string_eq, if◌then◌else◌}
use yuelink_ci.Prelude.Result.{Result, ok, err, type_error, ◌>>=◌}
use yuelink_ci.Prelude.Int.{ℤ, pos, int_eq}
use yuelink_ci.Json.{Json, null, bool, int, float, str, arr, obj}

-- A list and a dictionary are not hashable.
unfoldable pub hashable : Json → Result (Unit {0})
hashable (arr vs) = err type_error
hashable (obj fs) = err type_error
hashable v = ok tt

-- A missing member is read as `None`.
abbrev pub or_null : Option Json → Json
or_null none = null
or_null (some v) = v

-- `value in {"a", "b"}`
unfoldable pub in_texts : List String → Json → Result Bool
unfolding hashable
in_texts texts (str s) = ok (contains texts s)
in_texts texts v = do hashable v >>= λ u. ok false

-- `as_integer` gives the integer that a float, by its `repr`, equals.
module _ (as_integer : String → Option ℤ) where
  -- The integer that a number equals: `True == 1 == 1.0`.
  unfoldable pub integral : Json → Option ℤ
  integral (bool b) = some (pos (if b then 1 else 0))
  integral (int n) = some n
  integral (float x) = as_integer x
  integral v = none

  unfoldable pub same_integer : Option ℤ → Option ℤ → Bool
  unfolding int_eq
  same_integer (some m) (some n) = m == n
  same_integer m n = false

  -- `a == b` of two hashable values.
  unfoldable pub key_eq : Json → Json → Bool
  unfolding integral same_integer
  key_eq null null = true
  key_eq (str s) (str t) = s == t
  key_eq (float x) (float y) = x == y
  key_eq a b = same_integer (integral a) (integral b)

  -- `d.get(key)`, in a dictionary whose latest items come first.
  unfoldable pub find {ℓ} : {V : Type ℓ} → Json → List (Json × V) → Option V
  unfolding key_eq
  find k [] = none
  find k ((j, v) ∷ d) = if key_eq k j then some v else find k d
