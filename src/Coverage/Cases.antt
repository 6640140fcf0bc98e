-- ===== src/Coverage/Cases.antt =====
-- `cases`: the check of the report of a successful run against the tests that it was to execute.
pub mod Grown
pub mod Steps
pub mod Runs
pub mod Finished
use yuelink_ci.Prelude.{
  ℕ, zero, suc, String, ◌<>◌, ◌-◌, Bool, true, false, not, ◌&&◌, ◌||◌, List, [], ◌∷◌, ◌++◌,
}
use yuelink_ci.Prelude.{
  Option, none, some, length, map, all, contains, codes, ◌==◌, string_eq, if◌then◌else◌,
}
use yuelink_ci.Prelude.Result.{
  Result, ok, err, value_error, type_error, attribute_error, key_error, ◌>>=◌, ◌>>◌, raise_if,
}
use yuelink_ci.Prelude.Int.{ℤ}
use yuelink_ci.Json.{Json, bool, str, obj, Fields, item, get, is_text}
use yuelink_ci.Json.Keys.{hashable, key_eq, find}
use yuelink_ci.Prelude.{starts_with, split_text}
use yuelink_ci.Coverage.ReportPath.{PosixPath, text_of, relative}
use yuelink_ci.MachineCount.{count_test_starts}

-- The key of the counter: the file, the test's name, and whether it was skipped.
pub record Case : Type 0 where
  pub path : String
  pub name : String
  pub skipped : Bool

-- The local variables of `cases`. `result` holds a key as often as it was counted, and the paths of
-- its keys are the set `reached`.
pub record Seen : Type 0 where
  pub suites : List (Json × String)
  pub started : List (Json × Fields)
  pub finished : List Json
  pub result : List Case

abbrev pub nothing_seen : Seen
nothing_seen = record { suites = []; started = []; finished = []; result = [] }

-- `value[key]`
abbrev pub member : String → Json → Result Json
member k (obj fs) = item k fs
member k v = err type_error

abbrev pub as_object : Json → Result Fields
as_object (obj fs) = ok fs
as_object v = err type_error

abbrev pub as_path : Json → Result String
as_path (str s) = ok s
as_path v = err type_error

-- `value.replace`, of a text.
abbrev pub as_text : Json → Result String
as_text (str s) = ok s
as_text v = err attribute_error

-- `type(value) is bool`
abbrev pub as_bool : Json → Result Bool
as_bool (bool b) = ok b
as_bool v = err (value_error "invalid visible/skip classification")

abbrev pub found_item {ℓ} : {A : Type ℓ} → Option A → Result A
found_item none = err key_error
found_item (some a) = ok a

-- `s.replace(old, new)` for an `old` that is not empty; the first characters are already replaced.
unfoldable pub replace_from : ℕ → String → String → String → String
unfolding starts_with
replace_from n old new String.[] = ""
replace_from (suc n) old new (String.◌∷◌ c s) = replace_from n old new s
replace_from zero old new (String.◌∷◌ c s) = elim (starts_with old (String.◌∷◌ c s)) [
  | true ↦ new <> replace_from (length (codes old) - 1) old new s
  | false ↦ String.◌∷◌ c (replace_from zero old new s)
]

module _ (as_integer : String → Option ℤ) (worker : PosixPath) (expected : List String) where
  -- `key in dictionary`, or in a set.
  unfoldable pub has_key : Json → List Json → Bool
  has_key k [] = false
  has_key k (j ∷ js) = key_eq as_integer k j || has_key k js

  unfoldable pub suite_path : Json → Result String
  suite_path suite = do
    value ← member "path" suite
    path ← as_path value
    relative worker "test/" path

  unfoldable pub on_suite : Seen → Fields → Result Seen
  on_suite s event = do
    suite ← item "suite" event
    path ← suite_path suite
    id ← member "id" suite
    hashable id
    raise_if
        (has_key id (map (λ e. e.0) s.suites)
          || contains (map (λ e. e.1) s.suites) path
          || not (contains expected path))
        "duplicate or unexpected suite identity"
    ok (record s { suites = s.suites ++ (id, path) ∷ [] })

  unfoldable pub on_start : Seen → Fields → Result Seen
  on_start s event = do
    value ← item "test" event
    test ← as_object value
    id ← item "id" test
    hashable id
    raise_if (has_key id (map (λ e. e.0) s.started)) "duplicate test or missing suite identity"
    suite ← item "suiteID" test
    hashable suite
    raise_if (not (has_key suite (map (λ e. e.0) s.suites)))
        "duplicate test or missing suite identity"
    ok (record s { started = s.started ++ (id, test) ∷ [] })

  -- The key of a test that is not hidden.
  unfoldable pub case_of : Seen → Json → Bool → Result Case
  case_of s identity skipped = do
    test ← found_item (find as_integer identity s.started)
    suite ← item "suiteID" test
    hashable suite
    path ← found_item (find as_integer suite s.suites)
    value ← item "name" test
    name ← as_text value
    ok (record {
      path = path;
      name = replace_from 0 (text_of worker) "<source>" name;
      skipped = skipped;
    })

  unfoldable pub on_done : Seen → Fields → Result Seen
  on_done s event = do
    identity ← item "testID" event
    hashable identity
    raise_if (not (has_key identity (map (λ e. e.0) s.started)) || has_key identity s.finished)
        "missing/duplicate/failed test terminal"
    result ← item "result" event
    raise_if (not (is_text "success" (some result))) "missing/duplicate/failed test terminal"
    hidden_value ← item "hidden" event
    hidden ← as_bool hidden_value
    skipped_value ← item "skipped" event
    skipped ← as_bool skipped_value
    let after = record s { finished = s.finished ++ identity ∷ [] }
    if hidden
        then ok after
        else case_of after identity skipped >>= λ c.
            ok (record after { result = s.result ++ c ∷ [] })

  -- The body of the loop for a line that is an object.
  unfoldable pub on_event : Seen → Fields → Result Seen
  on_event s event =
      let kind = get "type" event in
      if is_text "suite" kind
      then on_suite s event
      else if is_text "testStart" kind
      then on_start s event
      else if is_text "testDone" kind
      then on_done s event
      else ok s

  unfoldable pub on_value : Seen → Option Json → Result Seen
  on_value s (some (obj event)) = on_event s event
  on_value s v = ok s

  unfoldable pub scan : Seen → List (Option Json) → Result Seen
  scan s [] = ok s
  scan s (v ∷ vs) = on_value s v >>= λ t. scan t vs

  -- `set(xs) == set(ys)`
  unfoldable pub same_keys : List Json → List Json → Bool
  same_keys xs ys = all (λ x. has_key x ys) xs && all (λ y. has_key y xs) ys

  unfoldable pub same_texts : List String → List String → Bool
  same_texts xs ys = all (λ x. contains ys x) xs && all (λ y. contains xs y) ys

  -- The test after the loop.
  unfoldable pub is_complete : Seen → Bool
  is_complete s =
      same_keys s.finished (map (λ e. e.0) s.started)
      && same_texts (map (λ c. c.path) s.result) expected
      && same_texts (map (λ e. e.1) s.suites) expected

  unfoldable pub cases :
      (String → String) → (String → Option Json) → List String → Result (ℕ × List Case)
  cases strip loads lines = do
    count ← count_test_starts strip loads lines
    s ← scan nothing_seen (map loads lines)
    raise_if (not (is_complete s)) "requested file or test terminal missing"
    ok (count, s.result)
