-- ===== src/MachineCount.antt =====
-- scripts/count-flutter-machine-tests.py: the machine protocol of `flutter test`.
-- `str.strip` and `json.loads` are parameters.
pub mod Grammar
use yuelink_ci.Prelude.{ℕ, ◌+◌, String, Bool, true, false, not, Option, none, some}
use yuelink_ci.Prelude.{List, [], ◌∷◌, ltb, ◌==◌, string_eq, if◌then◌else◌}
use yuelink_ci.Prelude.Result.{Result, ok, err, value_error, ◌>>=◌}
use yuelink_ci.Json.{Json, obj, get, is_text, is_true}

-- The local variables of `count_test_starts`.
pub record Scan : Type 0 where
  pub count : ℕ
  pub started : Bool
  pub done : Bool

abbrev pub fresh : Scan
fresh = record { count = 0; started = false; done = false }

-- `event.get("type")` of an object, and `none` of any other value.
abbrev pub event_type : Json → Option Json
event_type (obj fs) = get "type" fs
event_type v = none

abbrev pub succeeded : Json → Option Json
succeeded (obj fs) = get "success" fs
succeeded v = none

-- A record of the running protocol.
unfoldable pub on_record : Scan → Json → Result Scan
on_record s (obj fs) =
    let kind = get "type" fs in
    if is_text "start" kind
    then err (value_error "duplicate Flutter protocol start")
    else if is_text "testStart" kind
    then ok (record s { count = s.count + 1 })
    else if is_text "done" kind
    then (if is_true (get "success" fs)
        then ok (record s { done = true })
        else err (value_error "Flutter protocol completed without success=true"))
    else ok s
on_record s v = ok s

-- The body of the loop for a line that is not blank: `none` is a `JSONDecodeError`.
unfoldable pub on_line : Scan → Option Json → Result Scan
unfolding on_record
on_line s none = if s.started then err (value_error "malformed Flutter machine JSON") else ok s
on_line s (some event) =
    if not s.started
    then (if is_text "start" (event_type event)
        then ok (record s { started = true })
        else err (value_error "JSON record before Flutter protocol start"))
    else if s.done
    then err (value_error "record after Flutter protocol done")
    else on_record s event

-- The tests after the loop.
unfoldable pub finish : Scan → Result ℕ
finish s =
    if not s.started
    then err (value_error "Flutter protocol start record is missing")
    else if not s.done
    then err (value_error "Flutter protocol done record is missing")
    else ok s.count

unfoldable pub enforce_floor : ℕ → ℕ → Result (Unit {0})
enforce_floor count minimum =
    if ltb count minimum then err (value_error "reviewed Flutter test floor") else ok tt

module _ (strip : String → String) (loads : String → Option Json) where
  unfoldable pub scan : List String → Scan → Result Scan
  scan [] s = ok s
  scan (line ∷ lines) s =
      (if strip line == "" then ok s else on_line s (loads (strip line))) >>= scan lines

  unfoldable pub count_test_starts : List String → Result ℕ
  unfolding scan on_line finish
  count_test_starts lines = scan lines fresh >>= finish
