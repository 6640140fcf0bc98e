-- ===== src/ReadRetry/Run/Ends.antt =====
-- A run ends if the clock of each round goes on.
use yuelink_ci.Prelude.{
  ℕ, zero, suc, ◌+◌, ◌-◌, min, ◌≡◌, ◌≢◌, refl, String, List, [], ◌∷◌, Option, none, some, length,
  arith, nat_eq,
}
use yuelink_ci.Prelude.Result.{Result, ok, err, ◌>>=◌}
use yuelink_ci.Prelude.Int.{ℤ, pos, int_eq}
use yuelink_ci.ReadRetry.{FileSystem, Status}
use yuelink_ci.ReadRetry.Ends.{validate-ne-none}
use yuelink_ci.ReadRetry.Execute.{Process, Exit}
use yuelink_ci.ReadRetry.Execute.Bounded.{Reaches, execute-ne-none}
use yuelink_ci.ReadRetry.Run.{
  attempts, total_time, attempt_time, Round, Effect, slept, Outcome, returns, after, finish,
  replace_target, on_exit, on_executed, on_process, on_temporary, on_attempt, loop, original,
  run_with, run_validated, run,
}

after-ne-none : (es : List Effect) (q : Option Outcome) → q ≢ none → after es q ≢ none
unfolding after
after-ne-none es none h e = h refl
after-ne-none es (some o) h e = cc

returns-ne-none : (status : Result ℤ) → returns status ≢ none
returns-ne-none status e = cc

finish-ne-none :
    (r : Round) (target : Option (String × Status)) (temporary : String) (exit : Exit)
    → finish r target temporary exit ≢ none
unfolding finish after
finish-ne-none r none temporary exit e = cc
finish-ne-none r (some (path, status)) temporary exit e = by_replace (replace_target r status) refl
  where
    by_replace : (q : Result (Unit {0})) → replace_target r status ≡ q → ⊥
    by_replace (err x) q = ground arith
    by_replace (ok x) q = ground arith

-- The clock of each round reaches the end of its command's time.
abbrev pub Ticks : (ℕ → Round) → ℕ → Type 0
Ticks rounds deadline =
    (attempt : ℕ) (p : Process)
    → (rounds attempt).process ≡ ok p
    → Reaches (p.started + min attempt_time (deadline - (rounds attempt).started)) p.readings

module _ (decode : List ℕ → List ℕ) (rounds : ℕ → Round) (argv : List String)
    (target : Option (String × Status)) (deadline : ℕ) where
  on_exit-ne-none :
      (again : Option Outcome) (attempt : ℕ) (temporary : String) (exit : Exit)
      → again ≢ none
      → on_exit decode rounds argv target deadline again attempt temporary exit ≢ none
  unfolding on_exit
  on_exit-ne-none again attempt temporary exit more e = ground (
    arith,
    finish-ne-none (rounds attempt) target temporary exit,
    after-ne-none (slept attempt ∷ []) again more,
  )

  on_executed-ne-none :
      (again : Option Outcome) (attempt timeout : ℕ) (temporary : String) (q : Option Exit)
      → again ≢ none
      → q ≢ none
      → on_executed decode rounds argv target deadline again attempt temporary timeout q ≢ none
  unfolding on_executed
  on_executed-ne-none again attempt timeout temporary none more ended = λ e. ended refl
  on_executed-ne-none again attempt timeout temporary (some exit) more ended =
      after-ne-none _ _ (on_exit-ne-none again attempt temporary exit more)

  on_process-ne-none :
      (again : Option Outcome) (attempt : ℕ) (temporary : String) (q : Result Process)
      → again ≢ none
      → Ticks rounds deadline
      → (rounds attempt).process ≡ q
      → on_process decode rounds argv target deadline again attempt temporary q ≢ none
  unfolding on_process
  on_process-ne-none again attempt temporary (err x) more ticks same = returns-ne-none (err x)
  on_process-ne-none again attempt temporary (ok p) more ticks same =
      on_executed-ne-none again attempt _ temporary _ more (
        execute-ne-none p (min attempt_time (deadline - (rounds attempt).started))
          (ticks attempt p same))

  on_temporary-ne-none :
      (again : Option Outcome) (attempt : ℕ) (q : Result String)
      → again ≢ none
      → Ticks rounds deadline
      → on_temporary decode rounds argv target deadline again attempt q ≢ none
  unfolding on_temporary
  on_temporary-ne-none again attempt (err x) more ticks = returns-ne-none (err x)
  on_temporary-ne-none again attempt (ok temporary) more ticks =
      on_process-ne-none again attempt temporary _ more ticks refl

  loop-ne-none :
      (left attempt : ℕ)
      → Ticks rounds deadline
      → loop decode rounds argv target deadline left attempt ≢ none
  unfolding loop on_attempt
  loop-ne-none zero attempt ticks e = returns-ne-none (ok (pos 1)) e
  loop-ne-none (suc left) attempt ticks e =
      let again = loop decode rounds argv target deadline left (suc attempt) in
      ground (
        arith,
        on_temporary-ne-none again attempt (rounds attempt).temporary
            (loop-ne-none left (suc attempt) ticks) ticks,
      )

run_with-ne-none :
    (decode : List ℕ → List ℕ) (files : FileSystem) (rounds : ℕ → Round) (now : ℕ)
    (argv : List String) (target : Result (Option (String × Status)))
    → Ticks rounds (now + total_time)
    → run_with decode files rounds now argv target ≢ none
unfolding run_with
run_with-ne-none decode files rounds now argv (err x) ticks = returns-ne-none (err x)
run_with-ne-none decode files rounds now argv (ok target) ticks =
    loop-ne-none decode rounds argv target (now + total_time) attempts 1 ticks

run_validated-ne-none :
    (decode : List ℕ → List ℕ) (files : FileSystem) (rounds : ℕ → Round) (now : ℕ)
    (argv : List String) (v : Option (Result (Option String)))
    → v ≢ none
    → Ticks rounds (now + total_time)
    → run_validated decode files rounds now argv v ≢ none
unfolding run_validated
run_validated-ne-none decode files rounds now argv none validated ticks = λ e. validated refl
run_validated-ne-none decode files rounds now argv (some v) validated ticks =
    run_with-ne-none decode files rounds now argv (v >>= original files) ticks

-- A run ends, with a status or an exception, if in each round the clock reaches the end of the time
-- that the command is given.
pub run-ne-none :
    (decode : List ℕ → List ℕ) (files : FileSystem) (rounds : ℕ → Round) (now : ℕ)
    (argv : List String)
    → Ticks rounds (now + total_time)
    → run decode files rounds now argv ≢ none
unfolding run
run-ne-none decode files rounds now argv ticks =
    run_validated-ne-none decode files rounds now argv _
      (validate-ne-none files (length argv + 2) argv (omega arith)) ticks
