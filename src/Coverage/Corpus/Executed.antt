-- ===== src/Coverage/Corpus/Executed.antt =====
-- A `main` that completes has executed every test file.
use mathlib.Core.List.{Mem, flatten}
use yuelink_ci.Prelude.{
  ℕ, zero, suc, ◌≡◌, refl, sym, ap, subst, ◌∙◌, String, Bool, true, false, not, ◌&&◌, List, [], ◌∷◌,
  Option, some, any, contains, contains-append, get_elem?, arith, ◌==◌, ==→eq, string_eq, nat_eq,
  list_eq, if◌then◌else◌, Bool-cases, inl, inr,
}
use yuelink_ci.Prelude.Result.{ok, err, process_error, raise_if, >>=-eq-ok}
use yuelink_ci.Json.{Json}
use yuelink_ci.Coverage.Groups.{shares_isolated}
use yuelink_ci.Coverage.Union.{Summary}
use yuelink_ci.Coverage.Worker.{Library, ExecutionMode, Completed}
use yuelink_ci.Coverage.Worker.Runs.{IsRunOf}
use yuelink_ci.Coverage.Workers.{worker_count}
use yuelink_ci.Coverage.Snapshot.{resource_snapshot}
use yuelink_ci.Coverage.Worktrees.Removed.{with_worktrees-ran}
use yuelink_ci.Coverage.Plan.{Checkout, Plan, items_of_dict, execution_plan}
use yuelink_ci.Coverage.Plan.Covers.{execution_plan-IsCover}
use yuelink_ci.Coverage.Main.{Environment, Outcome, run}
use yuelink_ci.Coverage.Main.Whole.{run-IsWhole}
use yuelink_ci.Coverage.Corpus.{
  Tree, Host, is_test, filter, insert_text, sort_texts, early_first, partition, sdk_matches, main,
}

contains-filter :
    (test : String → Bool) (paths : List String) (x : String)
    → contains paths x ≡ true
    → test x ≡ true
    → contains (filter test paths) x ≡ true
unfolding filter
contains-filter test [] x member good = cc
contains-filter test (p ∷ paths) x member good = elim (Bool-cases (x == p)) [
  | inl same ↦ let moved : test p ≡ test x = ap test (sym (==→eq x p same)) in ground arith
  | inr other ↦
      let rest = contains-filter test paths x (ground arith) good in
      elim (Bool-cases (test p)) [ inl kept ↦ ground arith | inr left ↦ ground arith ]
]

contains-insert_text :
    (s : String) (paths : List String) (x : String)
    → contains (insert_text s paths) x ≡ contains (s ∷ paths) x
unfolding insert_text
contains-insert_text s [] x = refl
contains-insert_text s (t ∷ paths) x = ground (arith, contains-insert_text s paths x)

contains-sort_texts :
    (paths : List String) (x : String) → contains (sort_texts paths) x ≡ contains paths x
unfolding sort_texts
contains-sort_texts [] x = refl
contains-sort_texts (s ∷ paths) x =
    ground (arith, contains-insert_text s (sort_texts paths) x, contains-sort_texts paths x)

module _ (required early : List String) (macos : String) (minimum_files : ℕ) where
  contains-early_first :
      (tests : List String) (x : String)
      → contains tests x ≡ true
      → contains (early_first required early macos minimum_files tests) x ≡ true
  unfolding early_first
  contains-early_first tests x member =
      let both =
        contains-append (filter (λ p. contains early p) tests)
          (filter (λ p. not (contains early p)) tests) x in
      elim (Bool-cases (contains early x)) [
        | inl soon ↦
            ground (arith, both, contains-filter (λ p. contains early p) tests x member soon)
        | inr late ↦ ground (
          arith,
          both,
          contains-filter (λ p. not (contains early p)) tests x member (ground (arith, late)),
        )
      ]

  partition-contains :
      (tree : Tree) (paths : List String) (x : String)
      → partition required early macos minimum_files tree ≡ ok paths
      → contains tree.tracked x ≡ true
      → is_test x ≡ true
      → contains paths x ≡ true
  unfolding partition
  partition-contains tree paths x h member test =
      let tests = sort_texts (filter is_test tree.tracked) in
      let same : early_first required early macos minimum_files tests ≡ paths = ground arith in
      let inside =
        contains-sort_texts (filter is_test tree.tracked) x
        ∙ contains-filter is_test tree.tracked x member test in
      rw (← same) (contains-early_first tests x inside)

-- A path in some group stands in one of them.
contains-flatten :
    (groups : List (List String)) (x : String)
    → contains (flatten groups) x ≡ true
    → (i : ℕ) × (tests : List String) × (get_elem? groups i ≡ some tests)
      × (contains tests x ≡ true)
unfolding flatten
contains-flatten [] x h = cc
contains-flatten (tests ∷ groups) x h = elim (Bool-cases (contains tests x)) [
  | inl here ↦ (0, tests, refl, here)
  | inr elsewhere ↦
      let (i, tests', found, inside) =
        contains-flatten groups x (ground (arith, contains-append tests (flatten groups) x)) in
      (suc i, tests', found, inside)
]

any-false :
    (p : String → Bool) (l : List String) (x : String)
    → any p l ≡ false
    → contains l x ≡ true
    → p x ≡ false
any-false p [] x h member = cc
any-false p (y ∷ l) x h member = elim (Bool-cases (x == y)) [
  | inl same ↦ subst (λ z. p z ≡ false) (sym (==→eq x y same)) (ground arith)
  | inr other ↦ any-false p l x (ground arith) (ground arith)
]

-- An isolated path is alone in its group.
shares_isolated-alone :
    (isolated : List String) (groups : List (List String)) (i : ℕ) (tests : List String)
    (x : String)
    → shares_isolated isolated groups ≡ false
    → get_elem? groups i ≡ some tests
    → contains tests x ≡ true
    → contains isolated x ≡ true
    → tests ≡ x ∷ []
unfolding shares_isolated
shares_isolated-alone isolated [] i tests x h found inside member = cc
shares_isolated-alone isolated (g ∷ groups) zero tests x h found inside member =
    let same : g ≡ tests = ground arith in
    let first : any (λ path. contains isolated path && not (g == path ∷ [])) g ≡ false =
      ground arith in
    let apart =
      any-false (λ path. contains isolated path && not (tests == path ∷ [])) tests x
        (rw same at first) inside in
    ==→eq tests (x ∷ []) (ground arith)
shares_isolated-alone isolated (g ∷ groups) (suc i) tests x h found inside member =
    shares_isolated-alone isolated groups i tests x (ground arith) found inside member

module _ (lib : Library) (same : Json → Option Json → Bool) (parent : String → String)
    (required early isolated : List String) (macos : String) (minimum_files minimum_tests : ℕ)
    (baseline : Summary) (env : Environment) where
  -- What was run for a test file: a completed group that it stands in, whose report `cases` accepts
  -- for the tests of the group. An isolated file is alone there.
  pub record IsExecuted (o : Outcome) (path : String) : Type 0 where
    pub mode : ExecutionMode
    pub tests : List String
    pub completed : Completed
    pub worker : ℕ
    pub inside : contains tests path ≡ true
    pub kept : Mem completed o.completed
    pub accepted :
        IsRunOf lib (env.directory worker) mode env.invoke completed.index tests completed
    pub alone : contains isolated path ≡ true → tests ≡ path ∷ []

  planned-IsExecuted :
      (checkout : Checkout) (capacity : ℕ) (paths : List String) (plan : Plan) (o : Outcome)
      (path : String)
      → execution_plan lib.as_integer parent isolated macos checkout paths ≡ ok plan
      → run lib (record env { capacity = capacity }) plan.mode minimum_tests baseline plan.groups
        ≡ ok o
      → contains paths path ≡ true
      → (path == macos) ≡ false
      → IsExecuted o path
  planned-IsExecuted checkout capacity paths plan o path planned ran member other =
      let cover =
        execution_plan-IsCover lib.as_integer parent isolated macos checkout paths plan planned in
      let whole =
        run-IsWhole lib (record env { capacity = capacity }) plan.mode minimum_tests baseline
          plan.groups o ran in
      let (i, tests, found, inside) =
        contains-flatten plan.groups path (ground (arith, cover.covered path)) in
      let (c, kept, named, (w, accepted)) = whole.ran i tests found in
      record {
        mode = plan.mode;
        tests = tests;
        completed = c;
        worker = w;
        inside = inside;
        kept = kept;
        accepted =
            subst (λ j. IsRunOf lib (env.directory w) plan.mode env.invoke j tests c) (sym named)
              accepted;
        alone = shares_isolated-alone isolated plan.groups i tests path cover.alone found inside;
      }

  -- If `main` completes, each tracked test file but the one left to macOS was executed: it stands in a
  -- completed group whose report is of runs that exited with 0 and is accepted by `cases` for exactly
  -- the group's tests, and is alone there if it is isolated; whatever the threads do.
  pub main-IsExecuted :
      (tree : Tree) (checkout : Checkout) (host : Host) (o : Outcome) (path : String)
      → main lib same parent required early isolated macos minimum_files minimum_tests baseline tree
          checkout host env
        ≡ ok o
      → contains tree.tracked path ≡ true
      → is_test path ≡ true
      → (path == macos) ≡ false
      → IsExecuted o path
  unfolding main
  main-IsExecuted tree checkout host o path h member test other =
      let (paths, one, h1) = >>=-eq-ok (partition required early macos minimum_files tree) _ h in
      let (u, two, h2) = >>=-eq-ok (if host.sources_clean then ok tt else err process_error) _ h1 in
      let (plan, three, h3) =
        >>=-eq-ok (execution_plan lib.as_integer parent isolated macos checkout paths) _ h2 in
      let (resources, seen, h0) = >>=-eq-ok (resource_snapshot host.resources) _ h3 in
      let (capacity, four, h4) =
        >>=-eq-ok (worker_count host.worker_bound resources.snapshot) _ h0 in
      let (expected, five, h5) = >>=-eq-ok (items_of_dict plan.sdk) _ h4 in
      let (v, six, tried) =
        >>=-eq-ok
          (raise_if (not (sdk_matches same host.sdk expected))
            "grouping SDK differs from reviewed baseline")
          _ h5 in
      let ran =
        with_worktrees-ran host.git host.pub_get host.remove host.root host.directory host.source
          (λ state.
            run lib (record env { capacity = capacity }) plan.mode minimum_tests baseline
              plan.groups)
          capacity host.resources_after o tried in
      planned-IsExecuted checkout capacity paths plan o path three ran
        (partition-contains required early macos minimum_files tree paths path one member test)
        other
