-- ===== src/Coverage/Plan/Covers.antt =====
-- The groups of a plan are those of the inventory's tests.
use mathlib.Core.List.{flatten}
use yuelink_ci.Prelude.{
  ◌≡◌, refl, sym, ap, subst, ◌∙◌, String, Bool, true, false, not, ◌&&◌, List, [], ◌∷◌, ◌++◌, Option,
  all, contains, contains-append, arith, ◌==◌, ==→eq, string_eq, nat_eq, list_eq, Bool-cases, inl,
  inr,
}
use yuelink_ci.Prelude.Result.{ok, value_or, raise_if, >>=-eq-ok}
use yuelink_ci.Prelude.Int.{ℤ}
use yuelink_ci.Json.{Json, Fields, get, item}
use yuelink_ci.Coverage.Groups.{
  count, sorted_eq, expected_paths, shares_isolated, assert_directory_groups, directory_groups,
}
use yuelink_ci.Coverage.Plan.{
  Checkout, Plan, fields_of, frozen_sdk, read_groups, grouped_plan_sha256, groups_fit,
  check_inventory, check_groups, check_bindings, grouped_plan, is_reviewed, directory_plan,
  execution_plan,
}

contains-count : (x : String) (l : List String) → (count x l == 0) ≡ not (contains l x)
unfolding count
contains-count x [] = ground arith
contains-count x (y ∷ l) = ground (arith, contains-count x l)

all-contains :
    (p : String → Bool) (l : List String) (x : String)
    → all p l ≡ true
    → contains l x ≡ true
    → p x ≡ true
all-contains p [] x h member = cc
all-contains p (y ∷ l) x h member = elim (Bool-cases (x == y)) [
  | inl same ↦ subst (λ z. p z ≡ true) (sym (==→eq x y same)) (ground arith)
  | inr other ↦ all-contains p l x (ground arith) (ground arith)
]

-- Lists with equally many of each path have the same paths.
sorted_eq-contains :
    (a b : List String) (x : String) → sorted_eq a b ≡ true → contains a x ≡ contains b x
unfolding sorted_eq
sorted_eq-contains a b x h = elim (Bool-cases (contains (a ++ b) x)) [
  | inl member ↦ ground (
    arith,
    all-contains (λ y. count y a == count y b) (a ++ b) x h member,
    contains-count x a,
    contains-count x b,
  )
  | inr absent ↦ ground (arith, absent, contains-append a b x)
]

contains-expected_paths :
    (macos : String) (paths : List String) (x : String)
    → contains (expected_paths macos paths) x ≡ (contains paths x && not (x == macos))
unfolding expected_paths
contains-expected_paths macos [] x = refl
contains-expected_paths macos (p ∷ paths) x = elim (Bool-cases (x == p)) [
  | inl same ↦
      let moved : (x == macos) ≡ (p == macos) = ap (λ y. y == macos) (==→eq x p same) in
      ground (arith, contains-expected_paths macos paths x, moved)
  | inr other ↦ elim (Bool-cases (p == macos)) [
    | inl skipped ↦ ground (arith, contains-expected_paths macos paths x)
    | inr kept ↦ ground (arith, contains-expected_paths macos paths x)
  ]
]

module _ (as_integer : String → Option ℤ) (parent : String → String) (isolated : List String)
    (macos : String) (checkout : Checkout) where
  -- The tests of the groups are those of the inventory, but for the one left to macOS, and an
  -- isolated one is alone in its group.
  pub record IsCover (paths : List String) (groups : List (List String)) : Type 0 where
    pub covered :
        (x : String) → contains (flatten groups) x ≡ (contains paths x && not (x == macos))
    pub alone : shares_isolated isolated groups ≡ false

  groups_fit-IsCover :
      (paths : List String) (groups : List (List String))
      → groups_fit as_integer parent isolated macos checkout paths groups ≡ true
      → IsCover paths groups
  unfolding groups_fit
  groups_fit-IsCover paths groups h =
      let same : flatten groups ≡ expected_paths macos paths = ==→eq _ _ (ground arith) in
      record {
        covered = λ x. rw same (contains-expected_paths macos paths x);
        alone = ground arith;
      }

  assert_directory_groups-IsCover :
      (paths : List String) (groups : List (List String))
      → assert_directory_groups parent isolated macos groups paths ≡ ok tt
      → IsCover paths groups
  unfolding assert_directory_groups
  assert_directory_groups-IsCover paths groups h =
      let same : sorted_eq (flatten groups) (expected_paths macos paths) ≡ true = ground arith in
      record {
        covered = λ x.
            sorted_eq-contains (flatten groups) (expected_paths macos paths) x same
            ∙ contains-expected_paths macos paths x;
        alone = ground arith;
      }

  check_groups-IsCover :
      (paths : List String) (all_groups : Json) (groups : List (List String))
      → check_groups as_integer parent isolated macos checkout paths all_groups ≡ ok groups
      → IsCover paths groups
  unfolding check_groups
  check_groups-IsCover paths all_groups groups h =
      let (read, one, after) = >>=-eq-ok (read_groups all_groups) _ h in
      groups_fit-IsCover paths groups (ground arith)

  grouped_plan-IsCover :
      (paths : List String) (plan : Plan)
      → grouped_plan as_integer parent isolated macos checkout paths ≡ ok plan
      → IsCover paths plan.groups
  unfolding grouped_plan
  grouped_plan-IsCover paths plan h =
      let (members, one, h1) = >>=-eq-ok (fields_of checkout.plan) _ h in
      let (all_groups, two, h2) = >>=-eq-ok (item "groups" members) _ h1 in
      let (u, three, h3) =
        >>=-eq-ok (check_inventory as_integer parent isolated macos checkout paths members) _ h2 in
      let (groups, four, h4) =
        >>=-eq-ok (check_groups as_integer parent isolated macos checkout paths all_groups) _ h3 in
      let (sdk, five, same) =
        >>=-eq-ok (check_bindings as_integer parent isolated macos checkout members) _ h4 in
      subst (λ (p : Plan). IsCover paths p.groups) (ap (value_or plan) same)
        (check_groups-IsCover paths all_groups groups four)

  directory_plan-IsCover :
      (paths : List String) (grouped : Fields) (plan : Plan)
      → directory_plan as_integer parent isolated macos checkout paths grouped ≡ ok plan
      → IsCover paths plan.groups
  unfolding directory_plan
  directory_plan-IsCover paths grouped plan h =
      let (sdk, one, h1) = >>=-eq-ok (frozen_sdk (get "live_sdk" grouped)) _ h in
      let (groups, two, h2) = >>=-eq-ok (directory_groups parent isolated macos paths) _ h1 in
      let (u, three, same) =
        >>=-eq-ok (assert_directory_groups parent isolated macos groups paths) _ h2 in
      subst (λ (p : Plan). IsCover paths p.groups) (ap (value_or plan) same)
        (assert_directory_groups-IsCover paths groups three)

  -- The groups that `execution_plan` returns, in either mode, have the tests of the inventory but for
  -- the one left to macOS and no others, and an isolated test is alone in its group.
  pub execution_plan-IsCover :
      (paths : List String) (plan : Plan)
      → execution_plan as_integer parent isolated macos checkout paths ≡ ok plan
      → IsCover paths plan.groups
  unfolding execution_plan
  execution_plan-IsCover paths plan h =
      let (u, one, h1) =
        >>=-eq-ok
          (raise_if (not (checkout.plan_sha256 == grouped_plan_sha256))
            "reviewed grouping control digest mismatch")
          _ h in
      let (grouped, two, h2) = >>=-eq-ok (fields_of checkout.plan) _ h1 in
      let (is_same, three, h3) =
        >>=-eq-ok (is_reviewed as_integer parent isolated macos checkout paths grouped) _ h2 in
      elim (Bool-cases is_same) [
        | inl same ↦ grouped_plan-IsCover paths plan (rw same at h3)
        | inr other ↦ directory_plan-IsCover paths grouped plan (rw other at h3)
      ]
