-- ===== src/Coverage/Cases/Steps.antt =====
-- What each event of a report does to the state of `cases`.
use yuelink_ci.Prelude.{
  ℕ, ◌≡◌, String, Bool, true, false, List, [], ◌∷◌, ◌++◌, map, Option, some, contains, arith,
  string_eq, if◌then◌else◌,
}
use yuelink_ci.Prelude.{◌+◌, suc, length, length-append, not, ◌&&◌}
use yuelink_ci.Prelude.Result.{Result, ok, value_or, ◌>>=◌}
use yuelink_ci.Prelude.Int.{ℤ}
use yuelink_ci.Json.{Json, null, bool, str, Fields, end, item, is_text}
use yuelink_ci.Coverage.ReportPath.{PosixPath}
use yuelink_ci.Coverage.Timeout.Tolerated.{is_kind}
use yuelink_ci.Coverage.Cases.{
  Case, Seen, member, as_bool, as_object, has_key, suite_path, on_suite, on_start, case_of, on_done,
}

-- A finished test succeeded.
abbrev pub IsPassed : Fields → Type 0
IsPassed event = is_kind "testDone" event ≡ true → item "result" event ≡ ok (str "success")

-- `event["test"]["id"]`
abbrev pub test_id : Fields → Result Json
test_id event = do value ← item "test" event; test ← as_object value; item "id" test

is_text-eq : (t : String) (v : Json) → is_text t (some v) ≡ true → v ≡ str t
is_text-eq t (str s) h = ground arith
is_text-eq t v h = absurd (ground arith)

abbrev no_case : Case
no_case = record { path = ""; name = ""; skipped = false }

abbrev pub is_shown : Result Json → Bool
is_shown (ok (bool false)) = true
is_shown v = false

-- How many tests finished that are not hidden.
unfoldable pub count_shown : List Fields → ℕ
count_shown [] = 0
count_shown (e ∷ es) =
    if is_kind "testDone" e && is_shown (item "hidden" e)
    then suc (count_shown es)
    else count_shown es

as_bool-shown : (v : Json) (hidden : Bool) → as_bool v ≡ ok hidden → is_shown (ok v) ≡ not hidden
as_bool-shown (bool true) hidden h = ground arith
as_bool-shown (bool false) hidden h = ground arith
as_bool-shown v hidden h = cc

module _ (as_integer : String → Option ℤ) (worker : PosixPath) (expected : List String) where
  abbrev pub read_path : Fields → Result String
  read_path event = item "suite" event >>= suite_path as_integer worker expected

  abbrev pub is_old_key : List Json → Json → Bool
  is_old_key seen k = has_key as_integer worker expected k seen

  pub record IsAdded (s : Seen) (event : Fields) (t : Seen) : Type 0 where
    pub path : String
    pub id : Json
    pub after : t ≡ record s { suites = s.suites ++ (id, path) ∷ [] }
    pub named : read_path event ≡ ok path
    pub new : contains (map (λ e. e.1) s.suites) path ≡ false

  pub on_suite-IsAdded :
      (s : Seen) (event : Fields) (t : Seen)
      → on_suite as_integer worker expected s event ≡ ok t
      → IsAdded s event t
  unfolding on_suite
  on_suite-IsAdded s event t h =
      let suite = value_or null (item "suite" event) in
      let path = value_or "" (suite_path as_integer worker expected suite) in
      record {
        path = path;
        id = value_or null (member "id" suite);
        after = ground arith;
        named = ground arith;
        new = ground arith;
      }

  pub record IsStarted (s : Seen) (event : Fields) (t : Seen) : Type 0 where
    pub id : Json
    pub test : Fields
    pub after : t ≡ record s { started = s.started ++ (id, test) ∷ [] }
    pub named : test_id event ≡ ok id
    pub new : is_old_key (map (λ e. e.0) s.started) id ≡ false

  pub on_start-IsStarted :
      (s : Seen) (event : Fields) (t : Seen)
      → on_start as_integer worker expected s event ≡ ok t
      → IsStarted s event t
  unfolding on_start
  on_start-IsStarted s event t h =
      let test = value_or end (as_object (value_or null (item "test" event))) in
      record {
        id = value_or null (item "id" test);
        test = test;
        after = ground arith;
        named = ground arith;
        new = ground arith;
      }

  pub record IsDone (s : Seen) (event : Fields) (t : Seen) : Type 0 where
    pub id : Json
    pub suites : t.suites ≡ s.suites
    pub started : t.started ≡ s.started
    pub finished : t.finished ≡ s.finished ++ id ∷ []
    pub counted :
        length t.result ≡ length s.result + (if is_shown (item "hidden" event) then 1 else 0)
    pub named : item "testID" event ≡ ok id
    pub new : is_old_key s.finished id ≡ false
    pub passed : item "result" event ≡ ok (str "success")

  -- What a finished test adds to the counter.
  record IsCounted (s : Seen) (event : Fields) (t : Seen) : Type 0 where
    value : Json
    hidden : Bool
    read : item "hidden" event ≡ ok value
    known : as_bool value ≡ ok hidden
    case : Case
    shown : t.result ≡ (if hidden then s.result else s.result ++ case ∷ [])

  on_done-IsCounted :
      (s : Seen) (event : Fields) (t : Seen)
      → on_done as_integer worker expected s event ≡ ok t
      → IsCounted s event t
  unfolding on_done
  on_done-IsCounted s event t h =
      let id = value_or null (item "testID" event) in
      let value = value_or null (item "hidden" event) in
      let skipped = value_or false (as_bool (value_or null (item "skipped" event))) in
      let after : Seen = record s { finished = s.finished ++ id ∷ [] } in
      record {
        value = value;
        hidden = value_or false (as_bool value);
        read = ground arith;
        known = ground arith;
        case = value_or no_case (case_of as_integer worker expected after id skipped);
        shown = ground arith;
      }

  IsCounted-length :
      (s : Seen) (event : Fields) (t : Seen)
      → IsCounted s event t
      → length t.result ≡ length s.result + (if is_shown (item "hidden" event) then 1 else 0)
  IsCounted-length s event t c = ground (
    arith,
    c.read,
    c.known,
    c.shown,
    as_bool-shown c.value c.hidden,
    length-append s.result (c.case ∷ []),
  )

  pub on_done-IsDone :
      (s : Seen) (event : Fields) (t : Seen)
      → on_done as_integer worker expected s event ≡ ok t
      → IsDone s event t
  unfolding on_done
  on_done-IsDone s event t h =
      let id = value_or null (item "testID" event) in
      let result = value_or null (item "result" event) in
      record {
        id = id;
        suites = ground arith;
        started = ground arith;
        finished = ground arith;
        counted = IsCounted-length s event t (on_done-IsCounted s event t h);
        named = ground arith;
        new = ground arith;
        passed = ground (arith, is_text-eq "success" result);
      }
