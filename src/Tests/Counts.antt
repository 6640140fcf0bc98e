-- ===== src/Tests/Counts.antt =====
-- Runs of scripts/count-flutter-machine-tests.py.
use yuelink_ci.Prelude.{◌≡◌, refl, ◌↔◌, String, true, Option, none, some, List, [], ◌∷◌}
use yuelink_ci.Prelude.{◌==◌, string_eq, if◌then◌else◌}
use yuelink_ci.Prelude.Result.{ok, err, value_error}
use yuelink_ci.Json.{Json, str, bool, get}
use yuelink_ci.MachineCount.{count_test_starts}
use yuelink_ci.MachineCount.Grammar.{IsProtocol, events, count_test_starts-IsProtocol}
use yuelink_ci.Tests.Data.{object, array}

abbrev strip : String → String
strip line = if line == " " then "" else line

abbrev event : String → Json
event kind = object (("type", str kind) ∷ [])

abbrev loads : String → Option Json
loads line =
    if line == "start"
    then some (event "start")
    else if line == "test"
    then some (event "testStart")
    else if line == "array"
    then some (array [])
    else if line == "done"
    then some (object (("type", str "done") ∷ ("success", bool true) ∷ []))
    else none

abbrev lines : List String
lines = "Resolving" ∷ " " ∷ "start" ∷ "test" ∷ "array" ∷ "test" ∷ "done" ∷ " " ∷ []

two_tests : count_test_starts strip loads lines ≡ ok 2
unfolding count_test_starts string_eq get
two_tests = refl

corrupt_line :
    count_test_starts strip loads ("start" ∷ "noise" ∷ [])
    ≡ err (value_error "malformed Flutter machine JSON")
unfolding count_test_starts string_eq get
corrupt_line = refl

count_test_starts-IsProtocol_example :
    (count_test_starts strip loads lines ≡ ok 2) ↔ IsProtocol (events strip loads lines) 2
count_test_starts-IsProtocol_example = count_test_starts-IsProtocol strip loads lines 2
