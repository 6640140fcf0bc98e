-- ===== src/Coverage/Worker/Runs.antt =====
-- What a group that a worker completed has run.
use yuelink_ci.Prelude.{
  ℕ, ◌≡◌, refl, sym, ap, subst, String, Bool, ◌&&◌, List, [], ◌∷◌, none, some, map, All, length,
  leb, arith, ◌==◌, string_eq, nat_eq, Bool-cases, inl, inr,
}
use yuelink_ci.Prelude.Result.{Result, ok, value_or, >>=-eq-ok}
use yuelink_ci.Prelude.Int.{pos, int_eq}
use yuelink_ci.Coverage.ReportPath.{PosixPath}
use yuelink_ci.Coverage.Timeout.{timeout_classification}
use yuelink_ci.Coverage.Rows.{coverage_rows}
use yuelink_ci.Coverage.Split.{Attempt, Leaf, Outcome, split}
use yuelink_ci.Coverage.Split.Leaves.{IsSplitOf, split-IsSplitOf}
use yuelink_ci.Coverage.Stitch.{Line, stitch}
use yuelink_ci.Coverage.Worker.{
  Library, ExecutionMode, Report, Completed, text_of_line, check_cases, accept_cases, ended,
  stitch_group, on_timeout, settle, complete, run_group, run_groups, execute, lcov_or_raise,
  rewrite, is_by_directory,
}

ended-eq-ok : (o : Outcome) {leaves : List Leaf} → ended o ≡ ok leaves → o ≡ some (ok leaves)
ended-eq-ok none h = cc
ended-eq-ok (some r) h = ap some h

module _ (lib : Library) (worker : PosixPath) (mode : ExecutionMode)
    (invoke : ℕ → String → List String → Result Attempt) where
  -- Where the lines of a report are from: one run of the group that exited with 0, or runs of its
  -- parts that the split gave, after a run that timed out.
  pub data IsFrom (index : ℕ) (tests : List String) (lines : List String) : Type 0 where
    one_run :
        (a : Attempt)
        → invoke index "" tests ≡ ok a
        → a.returncode ≡ pos 0
        → lines ≡ a.lines
        → IsFrom index tests lines
    parts :
        (a : Attempt) (leaves : List Leaf) (out : List Line)
        → invoke index "" tests ≡ ok a
        → a.returncode ≡ pos 124
        → IsSplitOf
            (invoke index)
            (timeout_classification lib.as_integer lib.loads)
            (accept_cases lib worker)
            tests
            leaves
        → stitch lib.float_add lib.loads (map (λ leaf. leaf.lines) leaves) ≡ ok out
        → lines ≡ map (text_of_line lib) out
        → IsFrom index tests lines

  -- What it means that a group was run: its report is from such runs, `cases` accepts it for exactly
  -- the group's tests, and the rows are those of its coverage.
  pub record IsRunOf (index : ℕ) (tests : List String) (c : Completed) : Type 0 where
    pub lines : List String
    pub from : IsFrom index tests lines
    pub checked : check_cases lib worker tests lines ≡ ok (c.observed, c.visible)
    pub counted : coverage_rows lib.int worker (lib.splitlines c.lcov) ≡ ok c.rows

  stitch_group-IsFrom :
      (index : ℕ) (tests : List String) (a : Attempt) (report : Report)
      → invoke index "" tests ≡ ok a
      → a.returncode ≡ pos 124
      → stitch_group lib worker mode invoke index tests ≡ ok report
      → IsFrom index tests report.lines
  unfolding stitch_group
  stitch_group-IsFrom index tests a report ran exit h =
      let (leaves, one, after) =
        >>=-eq-ok
          (ended (
            split (invoke index) (timeout_classification lib.as_integer lib.loads)
              (accept_cases lib worker) (length tests) tests ""))
          _ h in
      let (out, two, same) =
        >>=-eq-ok (stitch lib.float_add lib.loads (map (λ leaf. leaf.lines) leaves)) _ after in
      parts a leaves out ran exit
        (split-IsSplitOf (invoke index) (timeout_classification lib.as_integer lib.loads)
          (accept_cases lib worker) (length tests) tests "" leaves (ended-eq-ok _ one))
        two (ground arith)

  settle-IsFrom :
      (index : ℕ) (tests : List String) (a : Attempt) (report : Report)
      → invoke index "" tests ≡ ok a
      → settle lib worker mode invoke index tests a ≡ ok report
      → IsFrom index tests report.lines
  unfolding settle on_timeout
  settle-IsFrom index tests a report ran h =
      elim (Bool-cases (a.returncode == pos 124 && is_by_directory mode && leb 2 (length tests))) [
        | inl split ↦ stitch_group-IsFrom index tests a report ran (ground arith) (ground arith)
        | inr whole ↦ one_run a ran (ground arith) (ground arith)
      ]

  complete-eq-ok :
      (index : ℕ) (tests : List String) (report : Report) (c : Completed)
      → complete lib worker mode invoke index tests report ≡ ok c
      → (check_cases lib worker tests report.lines ≡ ok (c.observed, c.visible))
        × (coverage_rows lib.int worker (lib.splitlines c.lcov) ≡ ok c.rows)
        × (c.index ≡ index)
  unfolding complete
  complete-eq-ok index tests report c h =
      let ((observed, visible), one, h1) =
        >>=-eq-ok (check_cases lib worker tests report.lines) _ h in
      let (text, two, h2) = >>=-eq-ok (lcov_or_raise report.lcov) _ h1 in
      let (lcov, three, h3) = >>=-eq-ok (rewrite lib worker (lib.splitlines_keepends text)) _ h2 in
      let (rows, four, same) =
        >>=-eq-ok (coverage_rows lib.int worker (lib.splitlines lcov)) _ h3 in
      subst
        (λ d.
          (check_cases lib worker tests report.lines ≡ ok (d.observed, d.visible))
          × (coverage_rows lib.int worker (lib.splitlines d.lcov) ≡ ok d.rows)
          × (d.index ≡ index))
        (ap (value_or c) same) (one, four, refl)

  pub run_group-IsRunOf :
      (index : ℕ) (tests : List String) (c : Completed)
      → run_group lib worker mode invoke index tests ≡ ok c
      → (c.index ≡ index) × IsRunOf index tests c
  unfolding run_group
  run_group-IsRunOf index tests c h =
      let (a, ran, after) = >>=-eq-ok (invoke index "" tests) _ h in
      let (report, settled, last) =
        >>=-eq-ok (settle lib worker mode invoke index tests a) _ after in
      let (checked, counted, same) = complete-eq-ok index tests report c last in
      (
        same,
        record {
          lines = report.lines;
          from = settle-IsFrom index tests a report ran settled;
          checked = checked;
          counted = counted;
        },
      )

  run_groups-IsRunOf :
      (P : ℕ → List String → Type 0) (stopped : ℕ → Bool) (assignments : List (ℕ × List String))
      (completed : List Completed)
      → All (λ a. P a.0 a.1) assignments
      → run_groups lib worker mode invoke stopped assignments ≡ ok completed
      → All (λ c. (tests : List String) × P c.index tests × IsRunOf c.index tests c) completed
  unfolding run_groups
  run_groups-IsRunOf P stopped [] completed dealt h = subst (All _) (ap (value_or completed) h) tt
  run_groups-IsRunOf P stopped ((index, tests) ∷ assignments) completed dealt h =
      elim (Bool-cases (stopped index)) [
        | inl halt ↦ subst (All _) (ap (value_or completed) (rw halt at h)) tt
        | inr on ↦
            let (first, one, after) =
              >>=-eq-ok (run_group lib worker mode invoke index tests) _ (rw on at h) in
            let (rest, two, same) =
              >>=-eq-ok (run_groups lib worker mode invoke stopped assignments) _ after in
            let (named, is_run) = run_group-IsRunOf index tests first one in
            subst (All _) (ap (value_or completed) same) (
              (
                tests,
                subst (λ i. P i tests) (sym named) dealt.0,
                subst (λ i. IsRunOf i tests first) (sym named) is_run,
              ),
              run_groups-IsRunOf P stopped assignments rest dealt.1 two,
            )
      ]

  -- The completed groups of a worker are among those that it was dealt, of which `P` holds.
  pub execute-IsRunOf :
      (P : ℕ → List String → Type 0) (stopped : ℕ → Bool) (clean : Bool)
      (assignments : List (ℕ × List String)) (completed : List Completed)
      → All (λ a. P a.0 a.1) assignments
      → execute lib worker mode invoke stopped clean assignments ≡ ok completed
      → All (λ c. (tests : List String) × P c.index tests × IsRunOf c.index tests c) completed
  unfolding execute
  execute-IsRunOf P stopped clean assignments completed dealt h =
      let (all_run, one, same) =
        >>=-eq-ok (run_groups lib worker mode invoke stopped assignments) _ h in
      let kept : all_run ≡ completed = ground arith in
      run_groups-IsRunOf P stopped assignments completed dealt (rw kept at one)
