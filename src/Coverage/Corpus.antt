-- ===== src/Coverage/Corpus.antt =====
-- `partition` and `main`: the test files of the checkout, their groups, and the run of them all.
-- The lists that git and the file system give, and the annotations that an expression finds in a
-- file, are in the argument `tree`. The source's constants are arguments.
pub mod Executed
use yuelink_ci.Prelude.{
  ℕ, String, Bool, true, false, not, ◌&&◌, ◌||◌, List, [], ◌∷◌, ◌++◌, Option, none, some, any, all,
  length, ltb, contains, codes,
}
use yuelink_ci.Prelude.{◌==◌, string_eq, nat_eq, list_eq, if◌then◌else◌}
use yuelink_ci.Prelude.Result.{Result, ok, err, process_error, ◌>>=◌, ◌>>◌, raise_if}
use yuelink_ci.Json.{Json, Fields, end, field, get}
use yuelink_ci.Coverage.Union.{Summary, text_lt}
use yuelink_ci.Coverage.Worker.{Library}
use yuelink_ci.Coverage.Workers.{worker_count}
use yuelink_ci.Coverage.Gitlinks.{Place, GitTool}
use yuelink_ci.Coverage.Worktrees.{State, with_worktrees}
use yuelink_ci.Coverage.Snapshot
use yuelink_ci.Coverage.Snapshot.{resource_snapshot}
use yuelink_ci.Coverage.Plan.{Checkout, items_of_dict, execution_plan}
use yuelink_ci.Coverage.Main.{Environment, Outcome, run}

-- The tracked paths, the test files below test/, which of them are links, and the annotations of a
-- file.
pub record Tree : Type 0 where
  pub tracked : List String
  pub present : List String
  pub is_symlink : String → Bool
  pub annotations : String → List String

unfoldable pub has_suffix : List ℕ → List ℕ → Bool
has_suffix suffix [] = suffix == []
has_suffix suffix (c ∷ cs) = c ∷ cs == suffix || has_suffix suffix cs

-- `path.endswith("_test.dart")`
unfoldable pub is_test : String → Bool
is_test path = has_suffix (codes "_test.dart") (codes path)

-- `[path for path in paths if test]`
unfoldable pub filter : (String → Bool) → List String → List String
filter test [] = []
filter test (path ∷ paths) = let rest = filter test paths in if test path then path ∷ rest else rest

unfoldable pub insert_text : String → List String → List String
insert_text s [] = s ∷ []
insert_text s (t ∷ ts) =
    let later = insert_text s ts in if text_lt t s then t ∷ later else s ∷ t ∷ ts

-- `sorted(paths)`
unfoldable pub sort_texts : List String → List String
sort_texts [] = []
sort_texts (s ∷ ss) = insert_text s (sort_texts ss)

abbrev pub mac_annotations : List String
mac_annotations = "'mac-os'" ∷ []

abbrev pub is_nil : List String → Bool
is_nil [] = true
is_nil (s ∷ ss) = false

-- The tests of the loop over the files, for one file.
unfoldable pub check_annotations : String → String → List String → Result (Unit {0})
check_annotations macos path annotations = do
  raise_if
      (not (is_nil annotations) && (not (path == macos) || not (annotations == mac_annotations)))
      "unassigned platform-specific test"
  raise_if (path == macos && not (annotations == mac_annotations))
      "macOS assignment no longer matches its annotation"

unfoldable pub check_all : String → Tree → List String → Result (Unit {0})
check_all macos tree [] = ok tt
check_all macos tree (path ∷ paths) = do
  check_annotations macos path (tree.annotations path)
  check_all macos tree paths

module _ (required early : List String) (macos : String) (minimum_files : ℕ) where
  -- `sorted(tests, key=lambda path: (path not in early, path))`, of sorted tests.
  unfoldable pub early_first : List String → List String
  early_first tests =
      filter (λ path. contains early path) tests ++ filter (λ path. not (contains early path)) tests

  unfoldable pub partition : Tree → Result (List String)
  partition tree =
      let tests = sort_texts (filter is_test tree.tracked) in
      do
        raise_if (not (tests == sort_texts tree.present) || ltb (length tests) minimum_files)
            "test inventory differs from the complete tracked corpus or scan floor"
        raise_if (not (all (λ path. contains tests path) required) || any tree.is_symlink tests)
            "required crash cases missing or test paths are symlinks"
        check_all macos tree tests
        ok (early_first tests)

-- What `main` reads of the host: the bound on the workers, the visible resources at the start and at
-- the end, the members of `flutter --version`, whether `git diff` finds the sources unchanged, and
-- what the worktrees are made with: `source` is the commit of the checkout `root`.
pub record Host : Type 0 where
  pub worker_bound : String
  pub resources : Snapshot.Host
  pub sdk : Fields
  pub sources_clean : Bool
  pub resources_after : Snapshot.Host
  pub git : GitTool
  pub pub_get : Place → Result (Unit {0})
  pub remove : Place → Place → Option String
  pub root : Place
  pub directory : ℕ → Place
  pub source : String

-- `all(sdk.get(key) == value for key, value in expected.items())`
unfoldable pub sdk_matches : (Json → Option Json → Bool) → Fields → Fields → Bool
sdk_matches same sdk end = true
sdk_matches same sdk (field k v fs) = same v (get k sdk) && sdk_matches same sdk fs

-- `same` compares a value with a member, a missing one as `None`; `parent` is
-- `str(Path(path).parent)`.
module _ (lib : Library) (same : Json → Option Json → Bool) (parent : String → String)
    (required early isolated : List String) (macos : String) (minimum_files minimum_tests : ℕ)
    (baseline : Summary) where
  unfoldable pub main : Tree → Checkout → Host → Environment → Result Outcome
  main tree checkout host env = do
    paths ← partition required early macos minimum_files tree
    (if host.sources_clean then ok tt else err process_error)
    plan ← execution_plan lib.as_integer parent isolated macos checkout paths
    resources ← resource_snapshot host.resources
    capacity ← worker_count host.worker_bound resources.snapshot
    expected ← items_of_dict plan.sdk
    raise_if (not (sdk_matches same host.sdk expected))
        "grouping SDK differs from reviewed baseline"
    with_worktrees host.git host.pub_get host.remove host.root host.directory host.source
        (λ state.
          run lib (record env { capacity = capacity }) plan.mode minimum_tests baseline plan.groups)
        capacity host.resources_after
