-- ===== src/Tests/Stitched.antt =====
-- The reports of two leaves, joined by `stitch` of scripts/run-flutter-coverage.py.
use yuelink_ci.Prelude.{ℕ, ◌≡◌, ◌≢◌, refl, String, Bool, true, false, Option, none, some, All}
use yuelink_ci.Prelude.{List, [], ◌∷◌, ◌==◌, string_eq, nat_eq, if◌then◌else◌}
use yuelink_ci.Prelude.Result.{ok}
use yuelink_ci.Prelude.Int.{ℤ, pos, int_eq, ◌+ℤ◌}
use yuelink_ci.Json.{Json, str, int, bool, obj, get, item, is_text}
use yuelink_ci.MachineCount
use yuelink_ci.MachineCount.Grammar
use yuelink_ci.MachineCount.{on_record, on_line, finish, count_test_starts}
use yuelink_ci.Coverage.Stitch.{
  Line, raw, written, max_ℤ, raise_by, largest, put, is_dropped, add_to, shift, shift_if, shift_in,
  renumber, on_value, stitch_leaf, stitch_from, stitch,
}
use yuelink_ci.Coverage.Stitch.Kept.{IsReadable}
use yuelink_ci.Coverage.Stitch.Joined.{lines_of, IsAccepted, AreBare, stitch-total}
use yuelink_ci.Coverage.Stitch.Noise.{stitch_refused}
use yuelink_ci.Tests.Data.{object}

abbrev suite : ℕ → Json
suite n = object (
    ("type", str "suite")
    ∷ ("suite", object (("id", int (pos n)) ∷ ("path", str "test/a_test.dart") ∷ []))
    ∷ [])

abbrev test : ℕ → ℕ → Json
test n s = object (
    ("type", str "testStart")
    ∷ ("test", object (("id", int (pos n)) ∷ ("suiteID", int (pos s)) ∷ []))
    ∷ [])

abbrev passed : ℕ → Json
passed n =
    object (("type", str "testDone") ∷ ("testID", int (pos n)) ∷ ("result", str "success") ∷ [])

abbrev start : Json
start = object (("type", str "start") ∷ [])

abbrev done : Json
done = object (("type", str "done") ∷ ("success", bool true) ∷ [])

abbrev loads : String → Option Json
loads line =
    if line == "start"
    then some start
    else if line == "suite 0"
    then some (suite 0)
    else if line == "suite 2"
    then some (suite 2)
    else if line == "test 1"
    then some (test 1 0)
    else if line == "test 3"
    then some (test 3 2)
    else if line == "passed 1"
    then some (passed 1)
    else if line == "passed 3"
    then some (passed 3)
    else if line == "done"
    then some done
    else none

abbrev is_int : ℕ → Option Json → Bool
is_int n (some (int k)) = k == pos n
is_int n v = false

abbrev inner : String → Json → Option Json
inner k (obj fs) = elim (get k fs) [ some (obj gs) ↦ get "id" gs | _ ↦ none ]
inner k v = none

abbrev outer : String → Json → Option Json
outer k (obj fs) = get k fs
outer k v = none

abbrev dumps : Json → String
dumps v =
    if is_text "start" (outer "type" v)
    then "start"
    else if is_text "suite" (outer "type" v)
    then (if is_int 0 (inner "suite" v) then "suite 0" else "suite 2")
    else if is_text "testStart" (outer "type" v)
    then (if is_int 1 (inner "test" v) then "test 1" else "test 3")
    else if is_text "testDone" (outer "type" v)
    then (if is_int 1 (outer "testID" v) then "passed 1" else "passed 3")
    else "done"

abbrev strip : String → String
strip line = line

abbrev float_add : String → ℤ → String
float_add x n = x

abbrev leaf : List String
leaf = "start" ∷ "suite 0" ∷ "test 1" ∷ "passed 1" ∷ "done" ∷ []

abbrev joined : List Line
joined =
    raw "noise"
    ∷ written start
    ∷ written (suite 0)
    ∷ written (test 1 0)
    ∷ written (passed 1)
    ∷ written (suite 2)
    ∷ written (test 3 2)
    ∷ written (passed 3)
    ∷ written done
    ∷ []

stitch_lem : stitch float_add loads (("noise" ∷ leaf) ∷ leaf ∷ []) ≡ ok joined
unfolding stitch stitch_from stitch_leaf on_value renumber shift_in shift_if shift add_to is_dropped
    put largest raise_by max_ℤ ◌+ℤ◌ get item string_eq nat_eq int_eq
stitch_lem = refl

noise-IsAccepted : IsAccepted strip loads dumps ("noise" ∷ leaf) 1
unfolding count_test_starts MachineCount.scan on_line on_record finish get string_eq nat_eq int_eq
noise-IsAccepted = record {
  clean = (refl, (refl, (refl, (refl, (refl, (refl, tt))))));
  counted = refl;
}

leaf-IsAccepted : IsAccepted strip loads dumps leaf 1
unfolding count_test_starts MachineCount.scan on_line on_record finish get string_eq nat_eq int_eq
leaf-IsAccepted = record { clean = (refl, (refl, (refl, (refl, (refl, tt))))); counted = refl }

leaf-AreBare : AreBare strip loads dumps (leaf ∷ []) (1 ∷ [])
unfolding Grammar.events string_eq
leaf-AreBare =
    (leaf-IsAccepted, ((λ e. cc), ((λ e. cc), ((λ e. cc), ((λ e. cc), ((λ e. cc), tt))))), tt)

joined-AreReadable : All (IsReadable strip loads dumps) joined
unfolding get string_eq nat_eq int_eq
joined-AreReadable = (
  tt,
  (
    (refl, refl),
    (
      (refl, refl),
      (
        (refl, refl),
        ((refl, refl), ((refl, refl), ((refl, refl), ((refl, refl), ((refl, refl), tt))))),
      ),
    ),
  ),
)

no_text : loads "" ≡ none
unfolding string_eq
no_text = refl

stitch-total_example : count_test_starts strip loads (lines_of strip loads dumps joined) ≡ ok 2
stitch-total_example =
    stitch-total strip loads dumps float_add no_text ("noise" ∷ leaf) (leaf ∷ []) 1 (1 ∷ []) joined
      noise-IsAccepted leaf-AreBare stitch_lem joined-AreReadable

abbrev noisy : List Line
noisy =
    written start
    ∷ written (suite 0)
    ∷ written (test 1 0)
    ∷ written (passed 1)
    ∷ raw "noise"
    ∷ written (suite 2)
    ∷ written (test 3 2)
    ∷ written (passed 3)
    ∷ written done
    ∷ []

stitch-noisy_lem : stitch float_add loads (leaf ∷ ("noise" ∷ leaf) ∷ []) ≡ ok noisy
unfolding stitch stitch_from stitch_leaf on_value renumber shift_in shift_if shift add_to is_dropped
    put largest raise_by max_ℤ ◌+ℤ◌ get item string_eq nat_eq int_eq
stitch-noisy_lem = refl

noisy-AreReadable : All (IsReadable strip loads dumps) noisy
unfolding get string_eq nat_eq int_eq
noisy-AreReadable = (
  (refl, refl),
  (
    (refl, refl),
    (
      (refl, refl),
      ((refl, refl), (tt, ((refl, refl), ((refl, refl), ((refl, refl), ((refl, refl), tt)))))),
    ),
  ),
)

noise-events : Grammar.events strip loads ("noise" ∷ leaf) ≡ none ∷ Grammar.events strip loads leaf
unfolding Grammar.events string_eq
noise-events = refl

stitch_refused_example : count_test_starts strip loads (lines_of strip loads dumps noisy) ≢ ok 2
stitch_refused_example =
    stitch_refused strip loads dumps float_add no_text leaf ("noise" ∷ leaf) [] 1 1
      (Grammar.events strip loads leaf) noisy leaf-IsAccepted noise-IsAccepted noise-events
      stitch-noisy_lem noisy-AreReadable 2
