-- ===== src/Coverage/Cases/Runs.antt =====
-- How the lists of `cases` grow over the events of a report.
use mathlib.Core.List.{map-append}
use yuelink_ci.Prelude.{
  ◌≡◌, refl, String, true, false, List, [], ◌∷◌, map, All, Option, contains, arith, string_eq,
  Bool-cases, inl, inr,
}
use yuelink_ci.Prelude.{◌+◌, length}
use yuelink_ci.Prelude.Result.{ok}
use yuelink_ci.Prelude.Int.{ℤ}
use yuelink_ci.Json.{Json, Fields, get, item, is_text, is_text_distinct}
use yuelink_ci.Coverage.ReportPath.{PosixPath}
use yuelink_ci.Coverage.Timeout.Tolerated.{is_kind}
use yuelink_ci.Coverage.Cases.{Seen, on_event}
use yuelink_ci.Coverage.Cases.Grown.{
  reads, reads-cons, IsGrown, IsGrown-none, IsGrown-one, IsGrown-trans,
}
use yuelink_ci.Coverage.Cases.Steps.{
  IsPassed, test_id, count_shown, read_path, is_old_key, IsAdded, on_suite-IsAdded, IsStarted,
  on_start-IsStarted, IsDone, on_done-IsDone,
}

module _ (v : Option Json) where
  suite_only :
      is_text "suite" v ≡ true → (is_text "testStart" v ≡ false) × (is_text "testDone" v ≡ false)
  unfolding string_eq
  suite_only h =
      (is_text_distinct "suite" "testStart" v refl h, is_text_distinct "suite" "testDone" v refl h)

  start_only : is_text "testStart" v ≡ true → is_text "testDone" v ≡ false
  unfolding string_eq
  start_only h = is_text_distinct "testStart" "testDone" v refl h

  done_only :
      is_text "testDone" v ≡ true → (is_text "suite" v ≡ false) × (is_text "testStart" v ≡ false)
  unfolding string_eq
  done_only h = (
    is_text_distinct "testDone" "suite" v refl h,
    is_text_distinct "testDone" "testStart" v refl h,
  )

module _ (as_integer : String → Option ℤ) (worker : PosixPath) (expected : List String) where
  -- The lists of a state after the events of a part of the report.
  pub record IsRun (s : Seen) (es : List Fields) (t : Seen) : Type 0 where
    pub suites :
        IsGrown contains
          (map (λ e. e.1) s.suites)
          (map (λ e. e.1) t.suites)
          (reads "suite" (read_path as_integer worker expected) es)
    pub started :
        IsGrown
          (is_old_key as_integer worker expected)
          (map (λ e. e.0) s.started)
          (map (λ e. e.0) t.started)
          (reads "testStart" test_id es)
    pub finished :
        IsGrown
          (is_old_key as_integer worker expected)
          s.finished
          t.finished
          (reads "testDone" (item "testID") es)
    pub counted : length t.result ≡ length s.result + count_shown es
    pub passed : All IsPassed es

  pub IsRun-cons :
      (s t u : Seen) (e : Fields) (es : List Fields)
      → IsRun s (e ∷ []) t
      → IsRun t es u
      → IsRun s (e ∷ es) u
  unfolding count_shown
  IsRun-cons s t u e es a b = record {
    suites =
        rw (reads-cons "suite" (read_path as_integer worker expected) e es)
          (IsGrown-trans contains a.suites b.suites);
    started =
        rw (reads-cons "testStart" test_id e es)
          (IsGrown-trans (is_old_key as_integer worker expected) a.started b.started);
    finished =
        rw (reads-cons "testDone" (item "testID") e es)
          (IsGrown-trans (is_old_key as_integer worker expected) a.finished b.finished);
    counted = ground (arith, a.counted, b.counted);
    passed = (a.passed.0, b.passed);
  }

  suite-IsRun :
      (s t : Seen) (e : Fields)
      → is_kind "suite" e ≡ true
      → IsAdded as_integer worker expected s e t
      → IsRun s (e ∷ []) t
  unfolding reads count_shown
  suite-IsRun s t e h a =
      let only = suite_only (get "type" e) h in
      record {
        suites =
            IsGrown-one contains _ a.path (rw a.after (map-append (λ x. x.1) s.suites _))
              (rw h (rw a.named refl)) a.new;
        started = IsGrown-none _ _ (rw a.after refl) (rw only.0 refl);
        finished = IsGrown-none _ _ (rw a.after refl) (rw only.1 refl);
        counted = ground (arith, a.after, only);
        passed = ((λ d. absurd (ground (arith, only, d))), tt);
      }

  start-IsRun :
      (s t : Seen) (e : Fields)
      → is_kind "suite" e ≡ false
      → is_kind "testStart" e ≡ true
      → IsStarted as_integer worker expected s e t
      → IsRun s (e ∷ []) t
  unfolding reads count_shown
  start-IsRun s t e other h a =
      let only = start_only (get "type" e) h in
      record {
        suites = IsGrown-none _ _ (rw a.after refl) (rw other refl);
        started =
            IsGrown-one (is_old_key as_integer worker expected) _ a.id
              (rw a.after (map-append (λ x. x.0) s.started _)) (rw h (rw a.named refl)) a.new;
        finished = IsGrown-none _ _ (rw a.after refl) (rw only refl);
        counted = ground (arith, a.after, only);
        passed = ((λ d. absurd (ground (arith, only, d))), tt);
      }

  done-IsRun :
      (s t : Seen) (e : Fields)
      → is_kind "testDone" e ≡ true
      → IsDone as_integer worker expected s e t
      → IsRun s (e ∷ []) t
  unfolding reads count_shown
  done-IsRun s t e h a =
      let only = done_only (get "type" e) h in
      record {
        suites = IsGrown-none _ _ (rw a.suites refl) (rw only.0 refl);
        started = IsGrown-none _ _ (rw a.started refl) (rw only.1 refl);
        finished =
            IsGrown-one (is_old_key as_integer worker expected) _ a.id a.finished
              (rw h (rw a.named refl)) a.new;
        counted = ground (arith, a.counted, h);
        passed = ((λ d. a.passed), tt);
      }

  other-IsRun :
      (s t : Seen) (e : Fields)
      → is_kind "suite" e ≡ false
      → is_kind "testStart" e ≡ false
      → is_kind "testDone" e ≡ false
      → t ≡ s
      → IsRun s (e ∷ []) t
  unfolding reads count_shown
  other-IsRun s t e a b c same = record {
    suites = IsGrown-none _ _ (rw same refl) (rw a refl);
    started = IsGrown-none _ _ (rw same refl) (rw b refl);
    finished = IsGrown-none _ _ (rw same refl) (rw c refl);
    counted = ground (arith, same, c);
    passed = ((λ d. absurd (ground (arith, c, d))), tt);
  }

  pub on_event-IsRun :
      (s t : Seen) (e : Fields)
      → on_event as_integer worker expected s e ≡ ok t
      → IsRun s (e ∷ []) t
  unfolding on_event
  on_event-IsRun s t e h =
      let kind = get "type" e in
      elim (Bool-cases (is_text "suite" kind)) [
        | inl suite ↦
            suite-IsRun s t e suite
              (on_suite-IsAdded as_integer worker expected s e t (rw suite at h))
        | inr a ↦ elim (Bool-cases (is_text "testStart" kind)) [
          | inl start ↦
              start-IsRun s t e a start
                (on_start-IsStarted as_integer worker expected s e t (rw (a, start) at h))
          | inr b ↦ elim (Bool-cases (is_text "testDone" kind)) [
            | inl done ↦
                done-IsRun s t e done
                  (on_done-IsDone as_integer worker expected s e t (rw (a, b, done) at h))
            | inr c ↦ other-IsRun s t e a b c (ground arith)
          ]
        ]
      ]

  pub IsRun-nil : (s : Seen) → IsRun s [] s
  unfolding reads count_shown
  IsRun-nil s = record {
    suites = IsGrown-none _ _ refl refl;
    started = IsGrown-none _ _ refl refl;
    finished = IsGrown-none _ _ refl refl;
    counted = omega arith;
    passed = tt;
  }
