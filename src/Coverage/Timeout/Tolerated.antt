-- ===== src/Coverage/Timeout/Tolerated.antt =====
-- What a classification other than a failure says of a report.
use yuelink_ci.Prelude.{
  ℕ, suc, ◌+◌, ◌<◌, ◌≡◌, ◌≢◌, refl, subst, sym, String, Bool, true, false, ◌&&◌,
}
use yuelink_ci.Prelude.{List, [], ◌∷◌, Option, some, map, All, contains, arith}
use yuelink_ci.Prelude.{string_eq, nat_eq, if◌then◌else◌, Bool-cases, inl, inr, ◌⊎◌}
use yuelink_ci.Prelude.Result.{ok, value_or}
use yuelink_ci.Prelude.Int.{ℤ}
use yuelink_ci.Json.{Json, str, obj, Fields, get, is_text, is_text_distinct}
use yuelink_ci.Json.Keys.{or_null, in_texts}
use yuelink_ci.Coverage.Timeout.{
  Classification, recorded_failure, engine_shutdown_fault, no_recorded_failure,
}
use yuelink_ci.Coverage.Timeout.{engine_shutdown_errors, Seen, nothing_seen, Step, failed, next}
use yuelink_ci.Coverage.Timeout.{is_false, on_loading_error, on_suite, on_start, on_done, on_error}
use yuelink_ci.Coverage.Timeout.{on_event, on_value, classify, timeout_classification}

abbrev pub is_kind : String → Fields → Bool
is_kind kind event = is_text kind (get "type" event)

-- A value that is one of the texts.
abbrev pub is_one_of : List String → Option Json → Bool
is_one_of texts (some (str s)) = contains texts s
is_one_of texts v = false

abbrev pub has_failed : Fields → Bool
has_failed event = is_one_of ("failure" ∷ "error" ∷ []) (get "result" event)

-- An error that the shutdown of the engine gives, and that is no failure of a test.
abbrev pub is_shutdown_error : Fields → Bool
is_shutdown_error event =
    is_one_of engine_shutdown_errors (get "error" event) && is_false (get "isFailure" event)

-- No failed test, and no error but of the engine's shutdown.
pub record IsHarmless (event : Fields) : Type 0 where
  pub passed : is_kind "testDone" event ≡ true → has_failed event ≡ false
  pub known : is_kind "error" event ≡ true → is_shutdown_error event ≡ true

-- The summary of a failed run.
abbrev pub is_failed_summary : Fields → Bool
is_failed_summary event = is_kind "done" event && is_false (get "success" event)

-- The events of a report: its lines that are objects.
unfoldable pub events : List (Option Json) → List Fields
events [] = []
events (some (obj event) ∷ vs) = event ∷ events vs
events (v ∷ vs) = events vs

pub count_errors : List Fields → ℕ
count_errors [] = 0
count_errors (e ∷ es) = if is_kind "error" e then suc (count_errors es) else count_errors es

abbrev IsStep : Seen → Fields → Seen → Type 0
IsStep s event s' =
    IsHarmless event
    × (s'.engine_errors ≡ s.engine_errors + count_errors (event ∷ []))
    × (s.engine_errors ≡ 0 → is_failed_summary event ≡ false)

in_texts-eq :
    (texts : List String) (v : Option Json) (b : Bool)
    → in_texts texts (or_null v) ≡ ok b
    → b ≡ is_one_of texts v
unfolding in_texts
in_texts-eq texts (some (str s)) b h = ground arith
in_texts-eq texts v b h = ground arith

-- The kinds of events exclude one another.
module _ (v : Option Json) where
  suite_only :
      is_text "suite" v ≡ true
      → (is_text "testDone" v ≡ false) × (is_text "error" v ≡ false) × (is_text "done" v ≡ false)
  unfolding string_eq
  suite_only h = (
    is_text_distinct "suite" "testDone" v refl h,
    is_text_distinct "suite" "error" v refl h,
    is_text_distinct "suite" "done" v refl h,
  )

  start_only :
      is_text "testStart" v ≡ true
      → (is_text "testDone" v ≡ false) × (is_text "error" v ≡ false) × (is_text "done" v ≡ false)
  unfolding string_eq
  start_only h = (
    is_text_distinct "testStart" "testDone" v refl h,
    is_text_distinct "testStart" "error" v refl h,
    is_text_distinct "testStart" "done" v refl h,
  )

  test_only : is_text "testDone" v ≡ true → (is_text "error" v ≡ false) × (is_text "done" v ≡ false)
  unfolding string_eq
  test_only h =
      (is_text_distinct "testDone" "error" v refl h, is_text_distinct "testDone" "done" v refl h)

  error_only :
      is_text "error" v ≡ true → (is_text "testDone" v ≡ false) × (is_text "done" v ≡ false)
  unfolding string_eq
  error_only h =
      (is_text_distinct "error" "testDone" v refl h, is_text_distinct "error" "done" v refl h)

on_suite-errors :
    (s : Seen) (event : Fields) (s' : Seen)
    → on_suite s event ≡ ok (next s')
    → s'.engine_errors ≡ s.engine_errors
unfolding on_suite
on_suite-errors s event s' h = ground arith

on_start-errors :
    (s : Seen) (event : Fields) (s' : Seen)
    → on_start s event ≡ ok (next s')
    → s'.engine_errors ≡ s.engine_errors
unfolding on_start
on_start-errors s event s' h = ground arith

on_done-passed :
    (s : Seen) (event : Fields) (s' : Seen)
    → on_done s event ≡ ok (next s')
    → (s'.engine_errors ≡ s.engine_errors) × (has_failed event ≡ false)
unfolding on_done
on_done-passed s event s' h =
    let bad = value_or false (in_texts ("failure" ∷ "error" ∷ []) (or_null (get "result" event))) in
    ground (arith, in_texts-eq ("failure" ∷ "error" ∷ []) (get "result" event) bad)

on_loading_error-known :
    (s : Seen) (event : Fields) (s' : Seen)
    → on_loading_error s event ≡ ok (next s')
    → (s'.engine_errors ≡ suc s.engine_errors) × (is_shutdown_error event ≡ true)
unfolding on_loading_error
on_loading_error-known s event s' h =
    let known = value_or false (in_texts engine_shutdown_errors (or_null (get "error" event))) in
    ground (arith, in_texts-eq engine_shutdown_errors (get "error" event) known)

on_error-known :
    (as_integer : String → Option ℤ) (s : Seen) (event : Fields) (s' : Seen)
    → on_error as_integer s event ≡ ok (next s')
    → (s'.engine_errors ≡ suc s.engine_errors) × (is_shutdown_error event ≡ true)
unfolding on_error
on_error-known as_integer s event s' h = ground (arith, on_loading_error-known s event s')

on_event-IsStep :
    (as_integer : String → Option ℤ) (s : Seen) (event : Fields) (s' : Seen)
    → on_event as_integer s event ≡ ok (next s')
    → IsStep s event s'
unfolding on_event count_errors
on_event-IsStep as_integer s event s' h =
    let kind = get "type" event in
    elim (Bool-cases (is_text "suite" kind)) [
      | inl suite ↦ ground (arith, suite_only kind suite, on_suite-errors s event s')
      | inr other ↦ elim (Bool-cases (is_text "testStart" kind)) [
        | inl start ↦ ground (arith, start_only kind start, on_start-errors s event s')
        | inr other' ↦ elim (Bool-cases (is_text "testDone" kind)) [
          | inl done ↦ ground (arith, test_only kind done, on_done-passed s event s')
          | inr other'' ↦ elim (Bool-cases (is_text "error" kind)) [
            | inl error ↦
                ground (arith, error_only kind error, on_error-known as_integer s event s')
            | inr rest ↦ ground arith
          ]
        ]
      ]
    ]

-- The values that the report holds, seen from a state of the loop.
record IsTolerated (errors : ℕ) (es : List Fields) (c : Classification) : Type 0 where
  harmless : All IsHarmless es
  crashed : c ≡ engine_shutdown_fault → 0 < errors + count_errors es
  quiet :
      c ≡ no_recorded_failure
      → (errors + count_errors es ≡ 0) × All (λ e. is_failed_summary e ≡ false) es

on_value-skips :
    (as_integer : String → Option ℤ) (s : Seen) (v : Option Json) (vs : List (Option Json))
    (s' : Seen)
    → on_value as_integer s v ≡ ok (next s')
    → ((event : Fields) × (v ≡ some (obj event)) × IsStep s event s')
      ⊎ (events (v ∷ vs) ≡ events vs) × (s' ≡ s)
unfolding on_value events
on_value-skips as_integer s (some (obj event)) vs s' h =
    inl (event, refl, on_event-IsStep as_integer s event s' h)
on_value-skips as_integer s v vs s' h = inr (refl, ground arith)

IsTolerated-cons :
    (s s' : Seen) (event : Fields) (es : List Fields) (c : Classification)
    → IsStep s event s'
    → IsTolerated s'.engine_errors es c
    → IsTolerated s.engine_errors (event ∷ es) c
unfolding count_errors
IsTolerated-cons s s' event es c step rest = record {
  harmless = (step.0, rest.harmless);
  crashed = λ e. ground (arith, step.1, rest.crashed e);
  quiet = λ e.
      let (sum, all) = rest.quiet e in
      (ground (arith, step.1), (step.2 (ground (arith, step.1)), all));
}

classify-IsTolerated :
    (as_integer : String → Option ℤ) (s : Seen) (vs : List (Option Json)) (c : Classification)
    → classify as_integer s vs ≡ ok c
    → c ≢ recorded_failure
    → IsTolerated s.engine_errors (events vs) c
unfolding classify events count_errors
classify-IsTolerated as_integer s [] c h other = record {
  harmless = tt;
  crashed = λ e. ground arith;
  quiet = λ e. ground arith;
}
classify-IsTolerated as_integer s (v ∷ vs) c h other =
    let step = value_or failed (on_value as_integer s v) in
    after step (ground arith) (λ s' h'. classify-IsTolerated as_integer s' vs c h' other)
  where
    after :
        (step : Step)
        → on_value as_integer s v ≡ ok step
        → ((s' : Seen)
            → classify as_integer s' vs ≡ ok c
            → IsTolerated s'.engine_errors (events vs) c)
        → IsTolerated s.engine_errors (events (v ∷ vs)) c
    after failed e ih = absurd (other (ground arith))
    after (next s') e ih =
        let rest = ih s' (ground arith) in
        elim (on_value-skips as_integer s v vs s' e) [
          | inl (event, whole, step) ↦
              rw whole (IsTolerated-cons s s' event (events vs) c step rest)
          | inr (skipped, same) ↦
              subst (λ es. IsTolerated s.engine_errors es c) (sym skipped)
                (subst (λ (t : Seen). IsTolerated t.engine_errors (events vs) c) same rest)
        ]

-- What a classification of a whole report says.
pub record IsExplained (es : List Fields) (c : Classification) : Type 0 where
  pub harmless : All IsHarmless es
  pub crashed : c ≡ engine_shutdown_fault → 0 < count_errors es
  pub quiet :
      c ≡ no_recorded_failure → (count_errors es ≡ 0) × All (λ e. is_failed_summary e ≡ false) es

-- A report that is not classified as a failure has no failed test and no error but of the engine's
-- shutdown; an engine fault has such an error, and no failure at all means no error and no failed
-- summary.
pub timeout_classification-IsExplained :
    (as_integer : String → Option ℤ) (loads : String → Option Json) (lines : List String)
    (c : Classification)
    → timeout_classification as_integer loads lines ≡ ok c
    → c ≢ recorded_failure
    → IsExplained (events (map loads lines)) c
unfolding timeout_classification
timeout_classification-IsExplained as_integer loads lines c h other =
    let all = classify-IsTolerated as_integer nothing_seen (map loads lines) c h other in
    record {
      harmless = all.harmless;
      crashed = λ e. ground (arith, all.crashed e);
      quiet = λ e. let (sum, good) = all.quiet e in (ground arith, good);
    }
