-- ===== src/Coverage/Worker.antt =====
-- `execute`: a worker runs its groups one after another, checks their reports and rewrites their
-- coverage. A run of `flutter` is named by the index of its group and the path of its half.
pub mod Runs
use yuelink_ci.Prelude.{
  ℕ, String, ◌<>◌, Bool, true, false, not, ◌&&◌, ◌||◌, List, [], ◌∷◌, Option, none, some, map,
  length, leb, contains, codes, starts_with, drop_text,
}
use yuelink_ci.Prelude.{◌==◌, string_eq, nat_eq, if◌then◌else◌}
use yuelink_ci.Prelude.Result.{Result, ok, err, value_error, process_error, ◌>>=◌, ◌>>◌, raise_if}
use yuelink_ci.Prelude.Int.{ℤ, pos, int_eq}
use yuelink_ci.Json.{Json}
use yuelink_ci.Coverage.ReportPath.{PosixPath, to_path, text_of}
use yuelink_ci.Coverage.Timeout.{Classification, recorded_failure, timeout_classification}
use yuelink_ci.Coverage.Cases.{Case, cases}
use yuelink_ci.Coverage.Rows.{Row, coverage_rows}
use yuelink_ci.Coverage.Split.{Attempt, Leaf, Outcome, split}
use yuelink_ci.Coverage.Stitch.{Line, raw, written, stitch}

-- What the source uses of Python's library: `str.strip`, `json.loads` and `json.dumps`, the integer
-- that a float equals, `int` of a text, the sum of a float and an integer, and `str.splitlines`
-- without and with the ends of the lines.
pub record Library : Type 0 where
  pub strip : String → String
  pub loads : String → Option Json
  pub dumps : Json → String
  pub as_integer : String → Option ℤ
  pub int : String → Result ℤ
  pub float_add : String → ℤ → String
  pub splitlines : String → List String
  pub splitlines_keepends : String → List String

-- "reviewed_groups" and "directory_groups".
pub data ExecutionMode : Type 0 where
  reviewed by_directory : ExecutionMode

abbrev pub is_by_directory : ExecutionMode → Bool
is_by_directory reviewed = false
is_by_directory by_directory = true

-- The report and the coverage that are checked after the runs of a group.
pub record Report : Type 0 where
  pub lines : List String
  pub lcov : Option String

-- An element of `completed`, with what its group adds to the unions.
pub record Completed : Type 0 where
  pub index : ℕ
  pub observed : ℕ
  pub lcov : String
  pub visible : List Case
  pub rows : List Row

abbrev pub written_lcov : Attempt → Option String
written_lcov a = if a.has_lcov then some a.lcov else none

abbrev pub lcov_or_raise : Option String → Result String
lcov_or_raise none = err (value_error "coverage report missing for file")
lcov_or_raise (some text) = ok text

-- `"".join(texts)`
unfoldable pub concat : List String → String
concat [] = ""
concat (s ∷ ss) = s <> concat ss

-- The fuel is enough, so that there is an outcome.
abbrev pub ended : Outcome → Result (List Leaf)
ended none = err (value_error "out of fuel")
ended (some leaves) = leaves

abbrev pub is_recorded : Classification → Bool
is_recorded recorded_failure = true
is_recorded c = false

abbrev pub forget {ℓ} : {A : Type ℓ} → Result A → Result (Unit {0})
forget (ok a) = ok tt
forget (err e) = err e

module _ (lib : Library) where
  abbrev pub text_of_line : Line → String
  text_of_line (raw line) = line
  text_of_line (written v) = lib.dumps v

  module _ (worker : PosixPath) where
    -- A path below the worker's directory loses that directory.
    unfoldable pub without_worker : String → String
    without_worker path =
        let prefix = text_of worker <> "/" in
        if starts_with prefix path then drop_text (length (codes prefix)) path else path

    unfoldable pub rewrite_line : String → Result String
    unfolding without_worker
    rewrite_line line =
        if not (starts_with "SF:" line)
        then ok line
        else (let path = without_worker (lib.strip (drop_text 3 line)) in
            do
              raise_if (not (starts_with "lib/" path) || contains (to_path path).parts "..")
                  "coverage source escaped the exact application tree"
              ok ("SF:" <> path <> "\n"))

    unfoldable pub rewrite : List String → Result String
    unfolding rewrite_line
    rewrite [] = ok ""
    rewrite (line ∷ lines) = do first ← rewrite_line line; rest ← rewrite lines; ok (first <> rest)

    abbrev pub check_cases : List String → List String → Result (ℕ × List Case)
    check_cases tests lines = cases lib.as_integer worker tests lib.strip lib.loads lines

    abbrev pub accept_cases : List String → List String → Result (Unit {0})
    accept_cases tests lines = forget (check_cases tests lines)

    module _ (mode : ExecutionMode) (invoke : ℕ → String → List String → Result Attempt) where
      -- The leaves of the split of a group, and their joined report and coverage.
      unfoldable pub stitch_group : ℕ → List String → Result Report
      stitch_group index tests = do
        leaves ← ended (
            split (invoke index) (timeout_classification lib.as_integer lib.loads) accept_cases
              (length tests) tests "")
        out ← stitch lib.float_add lib.loads (map (λ leaf. leaf.lines) leaves)
        ok (record {
          lines = map text_of_line out;
          lcov = some (concat (map (λ leaf. leaf.lcov) leaves));
        })

      -- A group that timed out.
      unfoldable pub on_timeout : ℕ → List String → Attempt → Result Report
      on_timeout index tests a = do
        classification ← timeout_classification lib.as_integer lib.loads a.lines
        raise_if (is_recorded classification) "timed-out group recorded a failure"
        stitch_group index tests

      unfoldable pub settle : ℕ → List String → Attempt → Result Report
      settle index tests a =
          if a.returncode == pos 124 && is_by_directory mode && leb 2 (length tests)
          then on_timeout index tests a
          else if not (a.returncode == pos 0)
          then err process_error
          else ok (record { lines = a.lines; lcov = written_lcov a })

      -- The checks of the report and of the coverage.
      unfoldable pub complete : ℕ → List String → Report → Result Completed
      complete index tests report = do
        (observed, visible) ← check_cases tests report.lines
        text ← lcov_or_raise report.lcov
        lcov ← rewrite (lib.splitlines_keepends text)
        rows ← coverage_rows lib.int worker (lib.splitlines lcov)
        ok (record {
          index = index;
          observed = observed;
          lcov = lcov;
          visible = visible;
          rows = rows;
        })

      -- The body of the loop.
      unfoldable pub run_group : ℕ → List String → Result Completed
      run_group index tests = do
        a ← invoke index "" tests
        report ← settle index tests a
        complete index tests report

      -- `stopped` tells whether `stop` is set before the group with an index.
      module _ (stopped : ℕ → Bool) where
        unfoldable pub run_groups : List (ℕ × List String) → Result (List Completed)
        run_groups [] = ok []
        run_groups ((index, tests) ∷ assignments) =
            let later = run_groups assignments in
            if stopped index
            then ok []
            else (do first ← run_group index tests; rest ← later; ok (first ∷ rest))

        -- `clean` is that `git diff` finds no change after the groups.
        unfoldable pub execute : Bool → List (ℕ × List String) → Result (List Completed)
        execute clean assignments = run_groups assignments >>= λ completed.
            if clean then ok completed else err process_error
