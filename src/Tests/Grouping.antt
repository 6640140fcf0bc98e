-- ===== src/Tests/Grouping.antt =====
-- Runs of `directory_groups` and `worker_count` of scripts/run-flutter-coverage.py.
use yuelink_ci.Prelude.{
  ◌≡◌, ◌≢◌, refl, String, List, [], ◌∷◌, arith, ◌==◌, string_eq, nat_eq, if◌then◌else◌, false,
}
use yuelink_ci.Prelude.{list_eq}
use yuelink_ci.Prelude.Result.{ok}
use yuelink_ci.Coverage.{macos_test, isolated_tests}
use yuelink_ci.Coverage.Workers.{Snapshot, gib, is_positive_text, to_number, memory_workers}
use yuelink_ci.Coverage.Workers.{limit_by_memory, worker_count}
use yuelink_ci.Prelude.{◌*◌, some}
use yuelink_ci.Coverage.Groups.{directory_groups, assert_directory_groups, count}
use yuelink_ci.Coverage.Groups.Accepted.{IsDistinct, directory_groups-accepted}

abbrev parent : String → String
parent path = if path == "test/a_test.dart" then "test" else "test/services"

abbrev b_path : String
b_path = "test/services/b_test.dart"

abbrev log_path : String
log_path = "test/services/rotating_log_file_test.dart"

abbrev inventory : List String
inventory = "test/a_test.dart" ∷ b_path ∷ log_path ∷ []

grouped :
    directory_groups parent isolated_tests macos_test inventory
    ≡ ok (
        ("test/a_test.dart" ∷ [])
        ∷ ("test/services/b_test.dart" ∷ [])
        ∷ ("test/services/rotating_log_file_test.dart" ∷ [])
        ∷ [])
unfolding directory_groups string_eq nat_eq
grouped = refl

differ : (a b : String) → (a == b) ≡ false → a ≢ b
differ a b h = λ e. ground arith

a_b : "test/a_test.dart" ≢ b_path
unfolding string_eq
a_b = differ _ _ refl

a_log : "test/a_test.dart" ≢ log_path
unfolding string_eq
a_log = differ _ _ refl

b_log : b_path ≢ log_path
unfolding string_eq
b_log = differ _ _ refl

inventory-IsDistinct : IsDistinct inventory
unfolding count
inventory-IsDistinct x = ground (arith, a_b, a_log, b_log)

directory_groups-accepted_example :
    (groups : List (List String)) × (directory_groups parent isolated_tests macos_test inventory
      ≡ ok groups)
    × (assert_directory_groups parent isolated_tests macos_test groups inventory ≡ ok tt)
directory_groups-accepted_example =
    directory_groups-accepted parent isolated_tests macos_test inventory inventory-IsDistinct

abbrev snapshot : Snapshot
snapshot = record {
  effective_cpus = some 3;
  available_memory_bytes = some (6 * gib);
  unknown = false;
}

two_workers : worker_count "8" snapshot ≡ ok 2
unfolding worker_count is_positive_text to_number limit_by_memory memory_workers nat_eq
two_workers = refl
