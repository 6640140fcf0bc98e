-- ===== src/Tests/Cases.antt =====
-- Runs of `cases` of scripts/run-flutter-coverage.py.
use yuelink_ci.Prelude.{◌≡◌, refl, String, true, false, Option, none, some}
use yuelink_ci.Prelude.{List, [], ◌∷◌, map, ◌==◌, string_eq, nat_eq, if◌then◌else◌}
use yuelink_ci.Prelude.{strip_prefix}
use yuelink_ci.Prelude.Result.{ok}
use yuelink_ci.Prelude.Int.{ℤ, pos, int_eq}
use yuelink_ci.Json.{Json, str, int, bool, get, item}
use yuelink_ci.Json.Keys.{hashable, integral, same_integer, key_eq, find}
use yuelink_ci.MachineCount.{on_record, on_line, finish, count_test_starts}
use yuelink_ci.MachineCount
use yuelink_ci.MachineCount.Grammar
use yuelink_ci.MachineCount.Grammar.{IsProtocol}
use yuelink_ci.Coverage.Timeout.Tolerated.{events}
use yuelink_ci.Prelude.{starts_with, split_text}
use yuelink_ci.Coverage.ReportPath.{
  PosixPath, names, root_of, to_path, join_slash, text_of, below, relative_to, candidate, relative,
}
use yuelink_ci.Coverage.Cases.{
  Case, replace_from, has_key, suite_path, on_suite, on_start, case_of, on_done, on_event, on_value,
  scan, same_keys, same_texts, is_complete, cases,
}
use yuelink_ci.Coverage.Cases.Finished.{IsFinished, cases-IsFinished}
use yuelink_ci.Tests.Data.{object}

abbrev path : String
path = "test/a_test.dart"

abbrev loads : String → Option Json
loads line =
    if line == "start"
    then some (object (("type", str "start") ∷ []))
    else if line == "suite"
    then some (
        object (
          ("type", str "suite")
          ∷ ("suite", object (("id", int (pos 0)) ∷ ("path", str "/w/test/a_test.dart") ∷ []))
          ∷ []))
    else if line == "test"
    then some (
        object (
          ("type", str "testStart")
          ∷ (
            "test",
            object (("id", int (pos 1)) ∷ ("suiteID", int (pos 0)) ∷ ("name", str "in /w a") ∷ []),
          )
          ∷ []))
    else if line == "passed"
    then some (
        object (
          ("type", str "testDone")
          ∷ ("testID", int (pos 1))
          ∷ ("result", str "success")
          ∷ ("hidden", bool false)
          ∷ ("skipped", bool false)
          ∷ []))
    else if line == "done"
    then some (object (("type", str "done") ∷ ("success", bool true) ∷ []))
    else none

abbrev as_integer : String → Option ℤ
as_integer x = none

abbrev strip : String → String
strip line = line

abbrev worker : PosixPath
worker = record { root = "/"; parts = "w" ∷ [] }

abbrev lines : List String
lines = "noise" ∷ "start" ∷ "suite" ∷ "test" ∷ "passed" ∷ "done" ∷ []

abbrev visible : List Case
visible = record { path = path; name = "in <source> a"; skipped = false } ∷ []

cases_lem : cases as_integer worker (path ∷ []) strip loads lines ≡ ok (1, visible)
unfolding cases count_test_starts MachineCount.scan on_line on_record finish scan on_value on_event
    on_suite on_start on_done case_of suite_path relative candidate relative_to below to_path
    text_of join_slash names split_text root_of starts_with strip_prefix has_key key_eq integral
    same_integer find hashable item get replace_from same_keys same_texts is_complete string_eq
    nat_eq int_eq
cases_lem = refl

cases-IsFinished_example :
    IsProtocol (Grammar.events strip loads lines) 1
    × IsFinished as_integer worker (path ∷ []) (events (map loads lines)) visible
cases-IsFinished_example =
    cases-IsFinished as_integer worker (path ∷ []) strip loads lines 1 visible cases_lem
