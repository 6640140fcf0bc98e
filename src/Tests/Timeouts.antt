-- ===== src/Tests/Timeouts.antt =====
-- Runs of `timeout_classification` of scripts/run-flutter-coverage.py.
use yuelink_ci.Prelude.{◌≡◌, ◌≢◌, refl, String, ◌<>◌, false, Option, none, some}
use yuelink_ci.Prelude.{List, [], ◌∷◌, map, ◌==◌, string_eq, nat_eq, if◌then◌else◌}
use yuelink_ci.Prelude.Result.{ok}
use yuelink_ci.Prelude.Int.{ℤ, pos, int_eq}
use yuelink_ci.Json.{Json, str, int, bool, get}
use yuelink_ci.Json.Keys.{hashable, in_texts, integral, same_integer, key_eq, find}
use yuelink_ci.Coverage.Timeout.{
  recorded_failure, engine_shutdown_fault, is_loading, on_loading_error, on_suite,
}
use yuelink_ci.Coverage.Timeout.{on_start, on_done, on_error, on_event, on_value, classify}
use yuelink_ci.Coverage.Timeout.{timeout_classification}
use yuelink_ci.Coverage.Timeout.Tolerated.{IsExplained, events, timeout_classification-IsExplained}
use yuelink_ci.Tests.Data.{object}

abbrev path : String
path = "test/a_test.dart"

-- A suite, the test that loads it, and the crash of the engine.
abbrev loads : String → Option Json
loads line =
    if line == "suite"
    then some (
        object (
          ("type", str "suite")
          ∷ ("suite", object (("id", int (pos 0)) ∷ ("path", str path) ∷ []))
          ∷ []))
    else if line == "loading"
    then some (
        object (
          ("type", str "testStart")
          ∷ (
            "test",
            object (
                ("id", int (pos 1))
                ∷ ("suiteID", int (pos 0))
                ∷ ("name", str ("loading " <> path))
                ∷ []),
          )
          ∷ []))
    else if line == "crash"
    then some (
        object (
          ("type", str "error")
          ∷ ("testID", int (pos 1))
          ∷ ("error", str "Shell subprocess crashed with segmentation fault")
          ∷ ("isFailure", bool false)
          ∷ []))
    else if line == "failure"
    then some (
        object
          (("type", str "testDone") ∷ ("testID", int (pos 1)) ∷ ("result", str "failure") ∷ []))
    else none

abbrev as_integer : String → Option ℤ
as_integer x = none

abbrev lines : List String
lines = "noise" ∷ "suite" ∷ "loading" ∷ "crash" ∷ []

crashed : timeout_classification as_integer loads lines ≡ ok engine_shutdown_fault
unfolding timeout_classification classify on_value on_event on_suite on_start on_error on_done
    is_loading on_loading_error hashable in_texts integral same_integer key_eq find get string_eq
    nat_eq int_eq
crashed = refl

vetoed :
    timeout_classification as_integer loads ("suite" ∷ "loading" ∷ "crash" ∷ "failure" ∷ [])
    ≡ ok recorded_failure
unfolding timeout_classification classify on_value on_event on_suite on_start on_error on_done
    is_loading on_loading_error hashable in_texts integral same_integer key_eq find get string_eq
    nat_eq int_eq
vetoed = refl

fault-ne-failure : engine_shutdown_fault ≢ recorded_failure
fault-ne-failure h = cc

timeout_classification-IsExplained_example :
    IsExplained (events (map loads lines)) engine_shutdown_fault
timeout_classification-IsExplained_example =
    timeout_classification-IsExplained as_integer loads lines engine_shutdown_fault crashed
      fault-ne-failure
