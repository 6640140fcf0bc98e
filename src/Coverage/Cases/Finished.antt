-- ===== src/Coverage/Cases/Finished.antt =====
-- What a report that `cases` accepts says of its run.
use yuelink_ci.Prelude.{
  ℕ, ◌≡◌, String, true, List, [], ◌∷◌, map, All, Option, some, contains, arith, string_eq,
}
use yuelink_ci.Prelude.{length}
use yuelink_ci.Prelude.Result.{ok, value_or, >>=-eq-ok}
use yuelink_ci.Prelude.Int.{ℤ}
use yuelink_ci.Json.{Json, obj, Fields, item}
use yuelink_ci.MachineCount.Grammar
use yuelink_ci.MachineCount.Grammar.{IsProtocol, count_test_starts-IsProtocol}
use yuelink_ci.Coverage.ReportPath.{PosixPath}
use yuelink_ci.Coverage.Timeout.Tolerated.{events}
use yuelink_ci.Coverage.Cases.{
  Case, Seen, nothing_seen, on_event, on_value, scan, same_keys, same_texts, is_complete, cases,
}
use yuelink_ci.Coverage.Cases.Grown.{reads, IsGrown, AreSame, all→All}
use yuelink_ci.Coverage.Cases.Steps.{IsPassed, test_id, count_shown, read_path, is_old_key}
use yuelink_ci.Coverage.Cases.Runs.{IsRun, IsRun-cons, on_event-IsRun, IsRun-nil}

module _ (as_integer : String → Option ℤ) (worker : PosixPath) (expected : List String) where
  scan-IsRun :
      (s t : Seen) (vs : List (Option Json))
      → scan as_integer worker expected s vs ≡ ok t
      → IsRun as_integer worker expected s (events vs) t
  unfolding scan on_value events
  scan-IsRun s t [] h = let same : s ≡ t = cc in rw same (IsRun-nil as_integer worker expected t)
  scan-IsRun s t (some (obj e) ∷ vs) h =
      let (mid, first, rest) = >>=-eq-ok (on_event as_integer worker expected s e) _ h in
      IsRun-cons as_integer worker expected s mid t e (events vs)
        (on_event-IsRun as_integer worker expected s mid e first) (scan-IsRun mid t vs rest)
  scan-IsRun s t (v ∷ vs) h = scan-IsRun s t vs h

  same_keys-AreSame :
      (xs ys : List Json)
      → same_keys as_integer worker expected xs ys ≡ true
      → AreSame (is_old_key as_integer worker expected) xs ys
  unfolding same_keys
  same_keys-AreSame xs ys h = (all→All _ xs (ground arith), all→All _ ys (ground arith))

  same_texts-AreSame :
      (xs ys : List String)
      → same_texts as_integer worker expected xs ys ≡ true
      → AreSame contains xs ys
  unfolding same_texts
  same_texts-AreSame xs ys h = (all→All _ xs (ground arith), all→All _ ys (ground arith))

  -- What `cases` promises of the events of a report: each suite is a requested file and named once,
  -- each test started once and ended once, with success, and each requested file has a test that
  -- is not hidden.
  pub record IsFinished (es : List Fields) (visible : List Case) : Type 0 where
    pub suites : List String
    pub started : List Json
    pub finished : List Json
    pub named : IsGrown contains [] suites (reads "suite" (read_path as_integer worker expected) es)
    pub opened :
        IsGrown (is_old_key as_integer worker expected) [] started (reads "testStart" test_id es)
    pub closed :
        IsGrown
          (is_old_key as_integer worker expected)
          []
          finished
          (reads "testDone" (item "testID") es)
    pub passed : All IsPassed es
    pub ended : AreSame (is_old_key as_integer worker expected) finished started
    pub whole : AreSame contains suites expected
    pub reached : AreSame contains (map (λ c. c.path) visible) expected
    pub counted : length visible ≡ count_shown es

  -- A report that `cases` accepts is a protocol of as many tests as it returns. Its suites are the
  -- requested files, each once; its tests start once and end once, with success; the counted cases
  -- are as many as the ended tests that are not hidden, and each requested file has one.
  pub cases-IsFinished :
      (strip : String → String) (loads : String → Option Json) (lines : List String) (n : ℕ)
      (visible : List Case)
      → cases as_integer worker expected strip loads lines ≡ ok (n, visible)
      → IsProtocol (Grammar.events strip loads lines) n
        × IsFinished (events (map loads lines)) visible
  unfolding cases is_complete
  cases-IsFinished strip loads lines n visible h =
      let s =
        value_or nothing_seen (scan as_integer worker expected nothing_seen (map loads lines)) in
      let run = scan-IsRun nothing_seen s (map loads lines) (ground arith) in
      let same : visible ≡ s.result = ground arith in
      (
        (count_test_starts-IsProtocol strip loads lines n).0 (ground arith),
        record {
          suites = map (λ e. e.1) s.suites;
          started = map (λ e. e.0) s.started;
          finished = s.finished;
          named = run.suites;
          opened = run.started;
          closed = run.finished;
          passed = run.passed;
          ended = same_keys-AreSame _ _ (ground arith);
          whole = same_texts-AreSame _ _ (ground arith);
          reached = same_texts-AreSame _ _ (ground arith);
          counted = ground (arith, run.counted, same);
        },
      )
