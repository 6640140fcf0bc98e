-- ===== src/Tests/Splits.antt =====
-- The split of three tests of which the second half stops by a fault of the engine.
use yuelink_ci.Prelude.{◌≡◌, ◌≢◌, refl, String, true, List, [], ◌∷◌, none, some, arith}
use yuelink_ci.Prelude.{◌==◌, string_eq, nat_eq, if◌then◌else◌}
use yuelink_ci.Prelude.Result.{Result, ok}
use yuelink_ci.Prelude.Int.{pos, int_eq}
use yuelink_ci.Coverage.Timeout.{Classification, engine_shutdown_fault}
use yuelink_ci.Coverage.Split.{
  Attempt, Leaf, both, accept, on_fault, on_timeout, on_attempt, run_half, split,
}
use yuelink_ci.Coverage.Split.Leaves.{IsSplitOf, split-ne-none, split-IsSplitOf}

abbrev invoke : String → List String → Result Attempt
invoke path half = ok (record {
  returncode = if path == "1" then pos 124 else pos 0;
  lines = path ∷ [];
  has_lcov = true;
  lcov = "end_of_record";
})

abbrev shut_down : List String → Result Classification
shut_down lines = ok engine_shutdown_fault

abbrev accepted : List String → List String → Result (Unit {0})
accepted lines half = ok tt

abbrev group : List String
group = "a_test.dart" ∷ "b_test.dart" ∷ "c_test.dart" ∷ []

abbrev leaves : List Leaf
leaves =
    record { files = "a_test.dart" ∷ []; lines = "0" ∷ []; lcov = "end_of_record" }
    ∷ record { files = "b_test.dart" ∷ []; lines = "10" ∷ []; lcov = "end_of_record" }
    ∷ record { files = "c_test.dart" ∷ []; lines = "11" ∷ []; lcov = "end_of_record" }
    ∷ []

split-group : split invoke shut_down accepted 3 group "" ≡ some (ok leaves)
unfolding split both run_half on_attempt on_timeout on_fault accept string_eq nat_eq int_eq
split-group = refl

split-ne-none_example : split invoke shut_down accepted 3 group "" ≢ none
split-ne-none_example =
    split-ne-none invoke shut_down accepted 3 group "" (omega arith) (omega arith)

split-IsSplitOf_example : IsSplitOf invoke shut_down accepted group leaves
split-IsSplitOf_example = split-IsSplitOf invoke shut_down accepted 3 group "" leaves split-group
