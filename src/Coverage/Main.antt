-- ===== src/Coverage/Main.antt =====
-- `main` behind the plan of the groups: the groups are dealt to the workers, and the run is refused
-- unless each of them completed. What happens between the threads is in two arguments: the order
-- in which the workers finish, and the groups before which a worker sees `stop`. The merge by `lcov`,
-- which follows, is left out.
pub mod Dealt
pub mod Shares
pub mod Whole
use mathlib.Core.List.{flatten}
use yuelink_ci.Prelude.{
  ℕ, zero, suc, ◌+◌, ◌-◌, String, Bool, true, false, not, ◌&&◌, ◌||◌, List, [], ◌∷◌, ◌++◌, Option,
  none, some, map, length, ltb, leb,
}
use yuelink_ci.Prelude.{◌==◌, string_eq, nat_eq, list_eq, if◌then◌else◌}
use yuelink_ci.Prelude.Result.{Result, ok, err, process_error, index_error, ◌>>=◌, ◌>>◌, raise_if}
use yuelink_ci.Json.{Json}
use yuelink_ci.MachineCount.{enforce_floor}
use yuelink_ci.Coverage.ReportPath.{PosixPath}
use yuelink_ci.Coverage.Split.{Attempt}
use yuelink_ci.Coverage.Worker.{Library, ExecutionMode, reviewed, by_directory, Completed, execute}
use yuelink_ci.Coverage.Union.{Summary, summarize}

module _ {ℓ} {A : Type ℓ} where
  -- `enumerate(xs, n)`
  unfoldable pub enumerate : ℕ → List A → List (ℕ × A)
  enumerate n [] = []
  enumerate n (x ∷ xs) = (n, x) ∷ enumerate (suc n) xs

  -- `xs[skip::step]`
  unfoldable pub stride : ℕ → ℕ → List A → List A
  stride skip step [] = []
  stride zero step (x ∷ xs) = x ∷ stride (step - 1) step xs
  stride (suc skip) step (x ∷ xs) = stride skip step xs

abbrev pub insert : ℕ → List ℕ → List ℕ
insert n [] = n ∷ []
insert n (m ∷ ms) = if leb n m then n ∷ m ∷ ms else m ∷ insert n ms

-- `sorted(ns)`
unfoldable pub sorted : List ℕ → List ℕ
sorted [] = []
sorted (n ∷ ns) = insert n (sorted ns)

-- `range(n, n + k)`
unfoldable pub range : ℕ → ℕ → List ℕ
range n zero = []
range n (suc k) = n ∷ range (suc n) k

unfoldable pub sum : List ℕ → ℕ
sum [] = 0
sum (n ∷ ns) = n + sum ns

-- What the run depends on: the number of workers, their directories, the runs of `flutter`, `stop`
-- as it is seen before each group, the workers in the order in which they finish, whether `git
-- diff` finds a worker's sources, and those of the linked checkouts, unchanged, and the digests.
pub record Environment : Type 0 where
  pub capacity : ℕ
  pub directory : ℕ → PosixPath
  pub invoke : ℕ → String → List String → Result Attempt
  pub stopped : ℕ → Bool
  pub finish_order : List ℕ
  pub clean : ℕ → Bool
  pub links_clean : Bool
  pub dumps : Json → String
  pub sha256 : String → String

abbrev pub same_summary : Summary → Summary → Bool
same_summary s t =
    s.cases_sha256 == t.cases_sha256
    && s.coverage_sha256 == t.coverage_sha256
    && s.visible_cases == t.visible_cases
    && s.visible_skips == t.visible_skips
    && s.coverage_rows == t.coverage_rows

-- `mode == "reviewed_groups" and summary != plan["baseline_union"]`
abbrev pub differs : ExecutionMode → Summary → Summary → Bool
differs reviewed baseline summary = not (same_summary summary baseline)
differs by_directory baseline summary = false

-- `[path for _, _, path in completed if path.stat().st_size]`
unfoldable pub nonempty : List Completed → List Completed
nonempty [] = []
nonempty (c ∷ cs) = if c.lcov == "" then nonempty cs else c ∷ nonempty cs

abbrev pub is_nil {ℓ} : {A : Type ℓ} → List A → Bool
is_nil [] = true
is_nil (x ∷ xs) = false

-- What `main` keeps when the receipt says that the tests are complete.
pub record Outcome : Type 0 where
  pub completed : List Completed
  pub observed : ℕ
  pub summary : Summary

-- `minimum` is `MINIMUM_TESTS`, and `baseline` is `plan["baseline_union"]`.
module _ (lib : Library) (env : Environment) (mode : ExecutionMode) (minimum : ℕ)
    (baseline : Summary) where
  -- `execute(worker, assignments[index::capacity])`
  unfoldable pub work : List (List String) → ℕ → Result (List Completed)
  work groups index =
      execute lib (env.directory index) mode env.invoke env.stopped (env.clean index)
        (stride index env.capacity (enumerate 0 groups))

  -- `for future in as_completed(futures): completed.extend(future.result())`
  unfoldable pub collect : List (List String) → List ℕ → Result (List Completed)
  collect groups [] = ok []
  collect groups (index ∷ order) = do
    first ← work groups index
    rest ← collect groups order
    ok (first ++ rest)

  unfoldable pub run : List (List String) → Result Outcome
  run groups = do
    completed ← collect groups env.finish_order
    (if env.links_clean then ok tt else err process_error)
    raise_if (not (sorted (map (λ c. c.index) completed) == range 0 (length groups)))
        "complete test corpus did not execute"
    let observed = sum (map (λ c. c.observed) completed)
    enforce_floor observed minimum
    let summary =
        summarize env.dumps env.sha256 (flatten (map (λ c. c.visible) completed))
          (flatten (map (λ c. c.rows) completed))
    raise_if (differs mode baseline summary)
        "full-corpus case/skip or coverage union differs from reviewed baseline"
    raise_if (is_nil (nonempty completed))
        "no application coverage collected from the complete corpus"
    ok (record { completed = completed; observed = observed; summary = summary })
