-- ===== src/Coverage/Timeout.antt =====
-- `timeout_classification`: whether a report of a run that timed out records a failure.
pub mod Tolerated
use yuelink_ci.Prelude.{ℕ, suc, String, ◌<>◌, Bool, true, false, not, ◌&&◌, ◌||◌, List, [], ◌∷◌}
use yuelink_ci.Prelude.{Option, none, some, ◌==◌, string_eq, if◌then◌else◌, nat_eq, map}
use yuelink_ci.Prelude.Result.{Result, ok, err, attribute_error, ◌>>=◌, ◌>>◌}
use yuelink_ci.Prelude.Int.{ℤ}
use yuelink_ci.Json.{Json, bool, str, obj, Fields, end, get, is_text}
use yuelink_ci.Json.Keys.{hashable, or_null, in_texts, find}

pub data Classification : Type 0 where
  recorded_failure engine_shutdown_fault no_recorded_failure : Classification

-- `ENGINE_SHUTDOWN_ERRORS`
abbrev pub engine_shutdown_errors : List String
engine_shutdown_errors =
    "Shell subprocess crashed with segmentation fault"
    ∷ "Shell subprocess crashed with segmentation fault."
    ∷ "getSourceReport: (112) Service has disappeared"
    ∷ "getSourceReport: (-32000) Service connection disposed" ∷ []

-- The local variables of `timeout_classification`. A path may be missing, and is then `None`.
pub record Seen : Type 0 where
  pub suites : List (Json × Json)
  pub started : List (Json × Fields)
  pub engine_errors : ℕ

abbrev pub nothing_seen : Seen
nothing_seen = record { suites = []; started = []; engine_errors = 0 }

-- What a line does: it ends the function, or the loop goes on.
pub data Step : Type 0 where
  failed : Step
  next : Seen → Step

-- `event.get(key, {})`, on which the source calls `get`.
abbrev pub dict_or_empty : Option Json → Result Fields
dict_or_empty none = ok end
dict_or_empty (some (obj fs)) = ok fs
dict_or_empty (some v) = err attribute_error

-- `value is False`
abbrev pub is_false : Option Json → Bool
is_false (some (bool false)) = true
is_false v = false

abbrev pub found_or_empty : Option Fields → Fields
found_or_empty none = end
found_or_empty (some fs) = fs

-- `isinstance(path, str) and path and test.get("name") == "loading " + path`
unfoldable pub is_loading : Json → Fields → Bool
is_loading (str path) test = not (path == "") && is_text ("loading " <> path) (get "name" test)
is_loading v test = false

unfoldable pub on_suite : Seen → Fields → Result Step
on_suite s event = do
  suite ← dict_or_empty (get "suite" event)
  hashable (or_null (get "id" suite))
  ok (
      next
        (record s { suites = (or_null (get "id" suite), or_null (get "path" suite)) ∷ s.suites }))

unfoldable pub on_start : Seen → Fields → Result Step
on_start s event = do
  test ← dict_or_empty (get "test" event)
  hashable (or_null (get "id" test))
  ok (next (record s { started = (or_null (get "id" test), test) ∷ s.started }))

-- An error of a test that loads a suite: it is tolerated if it is of the engine's shutdown.
unfoldable pub on_loading_error : Seen → Fields → Result Step
on_loading_error s event = do
  known ← in_texts engine_shutdown_errors (or_null (get "error" event))
  ok (
      if known && is_false (get "isFailure" event)
      then next (record s { engine_errors = suc s.engine_errors })
      else failed)

unfoldable pub on_done : Seen → Fields → Result Step
on_done s event = do
  bad ← in_texts ("failure" ∷ "error" ∷ []) (or_null (get "result" event))
  ok (if bad then failed else next s)

module _ (as_integer : String → Option ℤ) where
  -- The branch of an `error` event.
  unfoldable pub on_error : Seen → Fields → Result Step
  on_error s event = do
    hashable (or_null (get "testID" event))
    let test = found_or_empty (find as_integer (or_null (get "testID" event)) s.started)
    hashable (or_null (get "suiteID" test))
    let path = or_null (find as_integer (or_null (get "suiteID" test)) s.suites)
    if not (is_loading path test) then ok failed else on_loading_error s event

  -- The body of the loop for a line that is an object.
  unfoldable pub on_event : Seen → Fields → Result Step
  on_event s event =
      let kind = get "type" event in
      if is_text "suite" kind
      then on_suite s event
      else if is_text "testStart" kind
      then on_start s event
      else if is_text "testDone" kind
      then on_done s event
      else if is_text "error" kind
      then on_error s event
      else if is_text "done" kind && is_false (get "success" event)
      then ok (if s.engine_errors == 0 then failed else next s)
      else ok (next s)

  -- `none` is a line that is no JSON.
  unfoldable pub on_value : Seen → Option Json → Result Step
  on_value s (some (obj event)) = on_event s event
  on_value s v = ok (next s)

  unfoldable pub classify : Seen → List (Option Json) → Result Classification
  classify s [] = ok (if s.engine_errors == 0 then no_recorded_failure else engine_shutdown_fault)
  classify s (v ∷ vs) = do
    step ← on_value s v
    elim step [ failed ↦ ok recorded_failure | next s' ↦ classify s' vs ]

  -- `loads` is `json.loads` of one line.
  unfoldable pub timeout_classification :
      (String → Option Json) → List String → Result Classification
  timeout_classification loads lines = classify nothing_seen (map loads lines)
