-- ===== src/Tests/Whole.antt =====
-- A run of two groups by two workers of scripts/run-flutter-coverage.py.
use mathlib.Core.List.{flatten}
use yuelink_ci.Prelude.{
  ℕ, ◌≡◌, refl, String, ◌<>◌, true, false, Option, none, some, List, [], ◌∷◌, ◌==◌, string_eq,
  nat_eq, list_eq, Bool, contains, if◌then◌else◌, strip_prefix, starts_with, split_text, split_once,
  drop_text, split,
}
use yuelink_ci.Prelude.Result.{ok}
use yuelink_ci.Prelude.Int.{pos, int_eq}
use yuelink_ci.Json.{Json, str, int, bool, obj, get, item}
use yuelink_ci.Json.Keys.{hashable, integral, same_integer, key_eq, find}
use yuelink_ci.MachineCount.{on_record, on_line, finish, count_test_starts, enforce_floor}
use yuelink_ci.MachineCount
use yuelink_ci.Coverage.ReportPath.{
  names, root_of, to_path, join_slash, text_of, below, relative_to, candidate, relative,
}
use yuelink_ci.Coverage.Cases
use yuelink_ci.Coverage.Cases.{
  Case, replace_from, has_key, suite_path, on_suite, on_start, case_of, on_done, on_event, on_value,
  same_keys, same_texts, is_complete, cases,
}
use yuelink_ci.Coverage.Rows
use yuelink_ci.Coverage.Rows.{
  Row, key_and_hits, is_counter, is_hit, counter_rows, on_source, on_counter, on_row, coverage_rows,
}
use yuelink_ci.Coverage.Split.{Attempt}
use yuelink_ci.Coverage.Worker.{
  Library, by_directory, Completed, without_worker, rewrite_line, rewrite, settle, complete,
  run_group, run_groups, execute,
}
use yuelink_ci.Coverage.Union.{
  Summary, text_lt, case_lt, case_eq, row_lt, row_eq, count_case, case_union, add_row,
  coverage_union, digest, summarize,
}
use yuelink_ci.Coverage.Main.{
  Environment, Outcome, enumerate, stride, sorted, range, sum, nonempty, work, collect, run,
}
use yuelink_ci.Coverage.Main.Whole.{IsWhole, run-IsWhole}
use yuelink_ci.Json.{Fields, end, field, has_exact_keys, is_text}
use yuelink_ci.Coverage.Groups.{
  has_key as has_parent, append_at, bucket, set_of, count, sorted_eq, place, place_all,
  place_bucket, place_order, shares_isolated, expected_paths, is_malformed, index_path, index_paths,
  directory_groups, assert_directory_groups,
}
use yuelink_ci.Coverage.Workers.{
  is_positive_text, to_number, limit_by_memory, memory_workers, worker_count,
}
use yuelink_ci.Coverage.Search.{search_number, match_here, spaces, skip_spaces, digits}
use yuelink_ci.Coverage.Snapshot
use yuelink_ci.Coverage.Snapshot.{
  bases, hierarchy, visible_cpus, host_available, quota, headroom, measure, missing,
  resource_snapshot, decimal_text, root_uncontrolled, limit_of,
}
use yuelink_ci.Coverage.Plan.{
  Checkout, grouped_plan_sha256, is_table, frozen_sdk, is_reviewed, directory_plan, execution_plan,
}
use yuelink_ci.Coverage.Corpus.{
  Tree, Host, has_suffix, is_test, filter, insert_text, sort_texts, check_annotations, check_all,
  early_first, partition, sdk_matches, main,
}
use yuelink_ci.Coverage.Corpus.Executed.{IsExecuted, main-IsExecuted}
use yuelink_ci.Tests.Data.{object}
use yuelink_ci.Tests.Gitlinks
use yuelink_ci.Coverage.Gitlinks.{
  path_parts, filled, words, split_tab, parse_link, head_of, link_worktree, add_links, add_gitlinks,
}
use yuelink_ci.Coverage.Worktrees.{set_up, removals, clean_up, with_worktrees}

abbrev suite : String → Json
suite path =
    object (
      ("type", str "suite")
      ∷ ("suite", object (("id", int (pos 0)) ∷ ("path", str path) ∷ []))
      ∷ [])

abbrev loads : String → Option Json
loads line =
    if line == "start"
    then some (object (("type", str "start") ∷ []))
    else if line == "suite a"
    then some (suite "test/a_test.dart")
    else if line == "suite b"
    then some (suite "test/b_test.dart")
    else if line == "test"
    then some (
        object (
          ("type", str "testStart")
          ∷ (
            "test",
            object (("id", int (pos 1)) ∷ ("suiteID", int (pos 0)) ∷ ("name", str "t") ∷ []),
          )
          ∷ []))
    else if line == "passed"
    then some (
        object (
          ("type", str "testDone")
          ∷ ("testID", int (pos 1))
          ∷ ("result", str "success")
          ∷ ("hidden", bool false)
          ∷ ("skipped", bool false)
          ∷ []))
    else if line == "done"
    then some (object (("type", str "done") ∷ ("success", bool true) ∷ []))
    else none

abbrev raw_source : String
raw_source = "SF:/w/lib/a.dart\n"

abbrev library : Library
library = record {
  strip = λ line. if line == "/w/lib/a.dart\n" then "/w/lib/a.dart" else line;
  loads = loads;
  dumps = λ v. "";
  as_integer = λ x. none;
  int = λ s. ok (pos 1);
  float_add = λ x n. x;
  splitlines = λ text. "SF:lib/a.dart" ∷ "DA:3,1" ∷ [];
  splitlines_keepends = λ text. raw_source ∷ "DA:3,1\n" ∷ [];
}

abbrev attempt : String → Attempt
attempt s = record {
  returncode = pos 0;
  lines = "start" ∷ s ∷ "test" ∷ "passed" ∷ "done" ∷ [];
  has_lcov = true;
  lcov = raw_source <> "DA:3,1\n";
}

abbrev environment : Environment
environment = record {
  capacity = 2;
  directory = λ w. record { root = "/"; parts = "w" ∷ [] };
  invoke = λ index path tests. ok (attempt (if index == 0 then "suite a" else "suite b"));
  stopped = λ index. false;
  finish_order = 1 ∷ 0 ∷ [];
  clean = λ w. true;
  links_clean = true;
  dumps = λ v. "";
  sha256 = λ s. "";
}

abbrev baseline : Summary
baseline = record {
  cases_sha256 = "";
  coverage_sha256 = "";
  visible_cases = 2;
  visible_skips = 0;
  coverage_rows = 2;
}

abbrev groups : List (List String)
groups = ("test/a_test.dart" ∷ []) ∷ ("test/b_test.dart" ∷ []) ∷ []

abbrev row : Row
row = record { source = "lib/a.dart"; kind = "DA"; key = "3"; covered = false }

abbrev completed : ℕ → String → Completed
completed index path = record {
  index = index;
  observed = 1;
  lcov = "SF:lib/a.dart\nDA:3,1\n";
  visible = record { path = path; name = "t"; skipped = false } ∷ [];
  rows = row ∷ record row { covered = true } ∷ [];
}

abbrev outcome : Outcome
outcome = record {
  completed = completed 1 "test/b_test.dart" ∷ completed 0 "test/a_test.dart" ∷ [];
  observed = 2;
  summary = baseline;
}

run-groups_lem : run library environment by_directory 2 baseline groups ≡ ok outcome
unfolding run collect work execute run_groups run_group settle complete rewrite rewrite_line
    without_worker enumerate stride sorted range sum nonempty enforce_floor summarize digest
    case_union count_case case_lt case_eq text_lt row_lt row_eq add_row coverage_union cases
    count_test_starts MachineCount.scan on_line on_record finish Cases.scan on_value on_event
    on_suite on_start on_done case_of suite_path relative candidate relative_to below to_path
    text_of join_slash names split_text root_of starts_with strip_prefix has_key key_eq integral
    same_integer find hashable item get replace_from same_keys same_texts is_complete coverage_rows
    Rows.scan on_row on_source on_counter counter_rows key_and_hits is_hit is_counter split_once
    drop_text string_eq nat_eq int_eq list_eq flatten
run-groups_lem = refl

run-IsWhole_example : IsWhole library environment by_directory 2 baseline groups outcome
run-IsWhole_example =
    run-IsWhole library environment by_directory 2 baseline groups outcome run-groups_lem

abbrev tree : Tree
tree = record {
  tracked = "test/b_test.dart" ∷ "test/a_test.dart" ∷ "test/data.txt" ∷ [];
  present = "test/a_test.dart" ∷ "test/b_test.dart" ∷ [];
  is_symlink = λ path. false;
  annotations = λ path. [];
}

abbrev sdk : Fields
sdk = field "frameworkVersion" (str "3") (
    field "frameworkRevision" (str "f")
      (field "engineRevision" (str "e") (field "dartSdkVersion" (str "4") end)))

abbrev checkout : Checkout
checkout = record {
  plan_sha256 = grouped_plan_sha256;
  plan = obj (field "files" (obj end) (field "live_sdk" (obj sdk) end));
  sha256_of = λ path. "";
  lib_tree = "";
}

-- A Mac with nine gigabytes to spare.
abbrev mac : Snapshot.Host
mac = record {
  cpu_count = some 8;
  affinity = none;
  system = "Darwin";
  membership = none;
  meminfo = none;
  vm_stat =
      some
        "Statistics: (page size of 16384 bytes)\nPages free:  300000.\nPages inactive:  300000.\n";
  read = λ place name. none;
  events_missing = false;
  split = split_text 32;
  to_int = λ s. none;
}

abbrev host : Host
host = record {
  worker_bound = "2";
  resources = mac;
  sdk = sdk;
  sources_clean = true;
  resources_after = mac;
  git = Gitlinks.git;
  pub_get = λ place. ok tt;
  remove = λ original target. none;
  root = Gitlinks.source;
  directory = Gitlinks.directory;
  source = "head";
}

abbrev same : Json → Option Json → Bool
same (str s) v = is_text s v
same u v = false

abbrev b_path : String
b_path = "test/b_test.dart"

abbrev mac_path : String
mac_path = "test/m_test.dart"

abbrev early : List String
early = "test/a_test.dart" ∷ []

main_lem :
    main library same
      (λ path. "test")
      early
      early
      early
      mac_path
      2
      2
      baseline
      tree
      checkout
      host
      environment
    ≡ ok outcome
unfolding main partition early_first check_all check_annotations sort_texts insert_text filter
    is_test has_suffix execution_plan is_reviewed directory_plan frozen_sdk is_table has_exact_keys
    directory_groups assert_directory_groups index_paths index_path has_parent append_at bucket
    set_of count sorted_eq place place_all place_bucket place_order shares_isolated expected_paths
    is_malformed with_worktrees set_up removals clean_up add_gitlinks add_links parse_link
    link_worktree head_of path_parts words filled split_tab split resource_snapshot measure bases
    hierarchy visible_cpus host_available quota headroom missing limit_of root_uncontrolled
    decimal_text search_number match_here spaces skip_spaces digits worker_count limit_by_memory
    memory_workers to_number is_positive_text sdk_matches run collect work execute run_groups
    run_group settle complete rewrite rewrite_line without_worker enumerate stride sorted range sum
    nonempty enforce_floor summarize digest case_union count_case case_lt case_eq text_lt row_lt
    row_eq add_row coverage_union cases count_test_starts MachineCount.scan on_line on_record finish
    Cases.scan on_value on_event on_suite on_start on_done case_of suite_path relative candidate
    relative_to below to_path text_of join_slash names split_text root_of starts_with strip_prefix
    has_key key_eq integral same_integer find hashable item get replace_from same_keys same_texts
    is_complete coverage_rows Rows.scan on_row on_source on_counter counter_rows key_and_hits is_hit
    is_counter split_once drop_text string_eq nat_eq int_eq list_eq flatten
main_lem = refl

b_tracked : contains tree.tracked b_path ≡ true
unfolding string_eq
b_tracked = refl

b_test : is_test b_path ≡ true
unfolding is_test has_suffix list_eq nat_eq
b_test = refl

b_other : (b_path == mac_path) ≡ false
unfolding string_eq
b_other = refl

main-IsExecuted_example :
    IsExecuted library same
      (λ path. "test")
      early
      early
      early
      mac_path
      2
      2
      baseline
      environment
      outcome
      b_path
main-IsExecuted_example =
    main-IsExecuted library same (λ path. "test") early early early mac_path 2 2 baseline
      environment tree checkout host outcome b_path main_lem b_tracked b_test b_other
