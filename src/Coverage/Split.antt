-- ===== src/Coverage/Split.antt =====
-- `split` of `stitch`: a group whose run timed out by a fault of the engine is run again in halves.
-- `invoke` runs the tests of one half, named by its path; `classify` is `timeout_classification` of a
-- report, and `cases` the check of a successful one. Copies of reports and receipts are left out.
pub mod Leaves
use yuelink_ci.Prelude.{
  ℕ, zero, suc, ◌/◌, String, ◌<>◌, Bool, true, false, not, List, [], ◌∷◌, ◌++◌,
}
use yuelink_ci.Prelude.{Option, none, some, length, take, drop, ◌==◌, nat_eq, if◌then◌else◌}
use yuelink_ci.Prelude.Result.{Result, ok, err, value_error, process_error, ◌>>=◌, ◌>>◌, raise_if}
use yuelink_ci.Prelude.Int.{ℤ, pos, int_eq}
use yuelink_ci.Coverage.Timeout.{Classification, recorded_failure, engine_shutdown_fault}

-- A finished run: its exit status, the lines of its report, and whether it wrote its coverage, with
-- the text of it.
pub record Attempt : Type 0 where
  pub returncode : ℤ
  pub lines : List String
  pub has_lcov : Bool
  pub lcov : String

-- An element of `leaves`: the tests of a run that succeeded, its report, and its coverage.
pub record Leaf : Type 0 where
  pub files : List String
  pub lines : List String
  pub lcov : String

-- `none` is that the fuel ran out.
abbrev pub Outcome : Type 0
Outcome = Option (Result (List Leaf))

-- The leaves of one half, then those of the other, which does not run if the first raises.
unfoldable pub both : Outcome → Outcome → Outcome
both none second = none
both (some (err e)) second = some (err e)
both (some (ok xs)) none = none
both (some (ok xs)) (some (err e)) = some (err e)
both (some (ok xs)) (some (ok ys)) = some (ok (xs ++ ys))

module _ (invoke : String → List String → Result Attempt)
    (classify : List String → Result Classification)
    (cases : List String → List String → Result (Unit {0})) where
  -- After a run that succeeded.
  unfoldable pub accept : List String → Attempt → Result (List Leaf)
  accept half a = do
    cases half a.lines
    raise_if (not a.has_lcov) "coverage report missing"
    ok (record { files = half; lines = a.lines; lcov = a.lcov } ∷ [])

  -- After a run that timed out by a fault of the engine: `again` splits the half.
  unfoldable pub on_fault : (List String → String → Outcome) → List String → String → Outcome
  on_fault again half path =
      if length half == 1
      then some
          (err (value_error "engine shutdown fault timed out; single-file retry limit reached"))
      else again half path

  -- After a run that timed out.
  unfoldable pub on_timeout :
      (List String → String → Outcome) → List String → String → Result Classification → Outcome
  on_timeout again half path (err e) = some (err e)
  on_timeout again half path (ok engine_shutdown_fault) = on_fault again half path
  on_timeout again half path (ok other) = some (err process_error)

  unfoldable pub on_attempt :
      (List String → String → Outcome) → List String → String → Result Attempt → Outcome
  on_attempt again half path (err e) = some (err e)
  on_attempt again half path (ok a) =
      if a.returncode == pos 0
      then some (accept half a)
      else if a.returncode == pos 124
      then on_timeout again half path (classify a.lines)
      else some (err process_error)

  -- The body of the loop over the halves.
  unfoldable pub run_half : (List String → String → Outcome) → List String → String → Outcome
  run_half again half path = on_attempt again half path (invoke path half)

  unfoldable pub split : ℕ → List String → String → Outcome
  split zero files path = none
  split (suc fuel) files path =
      let mid = length files / 2 in
      both (run_half (split fuel) (take mid files) (path <> "0"))
        (run_half (split fuel) (drop mid files) (path <> "1"))
