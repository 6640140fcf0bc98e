-- ===== src/Coverage/Stitch.antt =====
-- The joining of `stitch`: the reports of the leaves of a split become one, with new identities.
-- `json.loads` and the sum of a float and an integer are parameters; a written event is kept as its
-- value.
pub mod Renumbered
pub mod Kept
pub mod Shape
pub mod Parts
pub mod Joined
pub mod Noise
use yuelink_ci.Prelude.{
  String, Bool, true, false, not, ◌&&◌, ◌||◌, List, [], ◌∷◌, ◌++◌, Option, none, some, contains,
  map,
}
use yuelink_ci.Prelude.{◌==◌, string_eq, if◌then◌else◌}
use yuelink_ci.Prelude.Result.{Result, ok, err, type_error, ◌>>=◌}
use yuelink_ci.Prelude.Int.{ℤ, pos, ◌+ℤ◌, leb_ℤ}
use yuelink_ci.Json.{Json, bool, int, float, obj, Fields, end, field, get, item, keys, is_text}
use yuelink_ci.Coverage.Timeout.{dict_or_empty}

-- A line of the joined report: one that is no JSON, or the text that `json.dumps` gives.
pub data Line : Type 0 where
  raw : String → Line
  written : Json → Line

-- An `int`, which a `bool` is too.
abbrev pub integer_of : Option Json → Option ℤ
integer_of (some (int n)) = some n
integer_of (some (bool b)) = some (pos (if b then 1 else 0))
integer_of v = none

unfoldable pub max_ℤ : ℤ → ℤ → ℤ
max_ℤ a b = if leb_ℤ a b then b else a

abbrev pub raise_to : ℤ → Option ℤ → ℤ
raise_to m none = m
raise_to m (some n) = max_ℤ m n

-- The loop over the three keys.
unfoldable pub raise_by : ℤ → Fields → ℤ
raise_by m fs =
    raise_to (raise_to (raise_to m (integer_of (get "id" fs))) (integer_of (get "suiteID" fs)))
      (integer_of (get "testID" fs))

-- The loop over the three records.
unfoldable pub largest : ℤ → Fields → Result ℤ
largest m event = do
  suite ← dict_or_empty (get "suite" event)
  test ← dict_or_empty (get "test" event)
  ok (raise_by (raise_by (raise_by m event) suite) test)

-- `d[key] = value`
unfoldable pub put : String → Json → Fields → Fields
put k v end = field k v end
put k v (field j w fs) = if k == j then field j v fs else field j w (put k v fs)

abbrev pub as_dict : Json → Result Fields
as_dict (obj fs) = ok fs
as_dict v = err type_error

-- Which records of a leaf are left out.
unfoldable pub is_dropped : Bool → Bool → Json → Bool
is_dropped first last (obj event) =
    is_text "done" (get "type" event) && not last || is_text "start" (get "type" event) && not first
is_dropped first last v = false

module _ (float_add : String → ℤ → String) where
  -- `value + offset`
  unfoldable pub add_to : ℤ → Json → Result Json
  add_to offset (int n) = ok (int (n +ℤ offset))
  add_to offset (bool b) = ok (int (pos (if b then 1 else 0) +ℤ offset))
  add_to offset (float x) = ok (float (float_add x offset))
  add_to offset v = err type_error

  -- `d[key] += offset`
  unfoldable pub shift : ℤ → String → Fields → Result Fields
  shift offset k fs = do v ← item k fs; moved ← add_to offset v; ok (put k moved fs)

  unfoldable pub shift_if : ℤ → String → Fields → Result Fields
  shift_if offset k fs = if contains (keys fs) k then shift offset k fs else ok fs

  -- `d[outer][key] += offset`
  unfoldable pub shift_in : ℤ → String → String → Fields → Result Fields
  shift_in offset outer k fs = do
    v ← item outer fs
    inner ← as_dict v
    moved ← shift offset k inner
    ok (put outer (obj moved) fs)

  -- The event with its identities moved.
  unfoldable pub renumber : ℤ → Fields → Result Fields
  renumber offset event = do
    one ← shift_if offset "suiteID" event
    two ← shift_if offset "testID" one
    let kind = get "type" two
    if is_text "suite" kind
        then shift_in offset "suite" "id" two
        else if is_text "testStart" kind
        then (shift_in offset "test" "id" two >>= shift_in offset "test" "suiteID")
        else ok two

  -- The lines that a line of a leaf becomes, and the largest identity so far.
  unfoldable pub on_value : ℤ → Bool → Bool → ℤ → String → Option Json → Result (ℤ × List Line)
  on_value offset first last m line none = ok (m, raw line ∷ [])
  on_value offset first last m line (some (obj event)) = do
    m' ← largest m event
    moved ← renumber offset event
    ok (m', if is_dropped first last (obj event) then [] else written (obj moved) ∷ [])
  on_value offset first last m line (some v) = ok (m, written v ∷ [])

  module _ (loads : String → Option Json) where
    -- The loop over the lines of a leaf.
    unfoldable pub stitch_leaf : ℤ → Bool → Bool → ℤ → List String → Result (ℤ × List Line)
    stitch_leaf offset first last m [] = ok (m, [])
    stitch_leaf offset first last m (line ∷ lines) = do
      (m', out) ← on_value offset first last m line (loads line)
      (m'', rest) ← stitch_leaf offset first last m' lines
      ok (m'', out ++ rest)

    -- The loop over the leaves.
    unfoldable pub stitch_from : ℤ → Bool → List (List String) → Result (List Line)
    stitch_from offset first [] = ok []
    stitch_from offset first (lines ∷ []) = do
      (m, out) ← stitch_leaf offset first true (pos 0) lines
      ok out
    stitch_from offset first (lines ∷ more ∷ leaves) = do
      (m, out) ← stitch_leaf offset first false (pos 0) lines
      rest ← stitch_from (offset +ℤ (m +ℤ pos 1)) false (more ∷ leaves)
      ok (out ++ rest)

    unfoldable pub stitch : List (List String) → Result (List Line)
    stitch leaves = stitch_from (pos 0) true leaves
