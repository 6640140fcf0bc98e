-- ===== src/Coverage/Plan.antt =====
-- `execution_plan`: the groups of a run, which are those of the reviewed plan if the checkout is the
-- one that it was reviewed for, and else the directories'. The plan is the value of its JSON.
pub mod Covers
use mathlib.Core.List.{flatten}
use yuelink_ci.Prelude.{
  ℕ, String, Bool, true, false, not, ◌&&◌, ◌||◌, List, [], ◌∷◌, Option, none, some, map, all,
  length, leb, contains,
}
use yuelink_ci.Prelude.{◌==◌, string_eq, nat_eq, list_eq, if◌then◌else◌}
use yuelink_ci.Prelude.Result.{
  Result, ok, err, value_error, type_error, attribute_error, ◌>>=◌, ◌>>◌, raise_if,
}
use yuelink_ci.Prelude.Int.{ℤ, pos, int_eq}
use yuelink_ci.Json.{
  Json, bool, int, float, str, arr, obj, Items, nil, cons, Fields, keys, get, item, has_exact_keys,
  is_text,
}
use yuelink_ci.Json.Keys.{hashable, integral, same_integer}
use yuelink_ci.Coverage.Groups.{
  sorted_eq, expected_paths, shares_isolated, directory_groups, assert_directory_groups,
}
use yuelink_ci.Coverage.Worker.{ExecutionMode, reviewed, by_directory}

-- What the source reads of the checkout: the digest and the value of the plan, the digest of a file,
-- and the tree of lib/.
pub record Checkout : Type 0 where
  pub plan_sha256 : String
  pub plan : Json
  pub sha256_of : String → String
  pub lib_tree : String

-- `GROUPED_PLAN_SHA256`
abbrev pub grouped_plan_sha256 : String
grouped_plan_sha256 = "818d2d37d03aa6666595fb4e8af16881c971d4d8865702e0543ab95a77fdd584"

-- `required` of `frozen_sdk`
abbrev pub sdk_keys : List String
sdk_keys = "frameworkVersion" ∷ "frameworkRevision" ∷ "engineRevision" ∷ "dartSdkVersion" ∷ []

-- `{path: digest for path in paths}`
abbrev pub digests : (String → String) → List String → List (String × String)
digests sha256_of paths = map (λ path. (path, sha256_of path)) paths

-- `value == table`
unfoldable pub is_table : List (String × String) → Json → Bool
is_table table (obj fs) =
    has_exact_keys fs (map (λ e. e.0) table) && all (λ e. is_text e.1 (get e.0 fs)) table
is_table table v = false

abbrev pub fields_of : Json → Result Fields
fields_of (obj fs) = ok fs
fields_of v = err type_error

-- `value.items()`
abbrev pub items_of_dict : Json → Result Fields
items_of_dict (obj fs) = ok fs
items_of_dict v = err attribute_error

-- A list of texts.
unfoldable pub texts_of : Items → Option (List String)
texts_of nil = some []
texts_of (cons (str s) vs) = elim (texts_of vs) [ none ↦ none | some ss ↦ some (s ∷ ss) ]
texts_of (cons v vs) = none

-- A list of lists of texts.
unfoldable pub groups_of : Items → Option (List (List String))
groups_of nil = some []
groups_of (cons (arr ps) vs) = elim (texts_of ps) [
  | none ↦ none
  | some group ↦ elim (groups_of vs) [ none ↦ none | some groups ↦ some (group ∷ groups) ]
]
groups_of (cons v vs) = none

abbrev pub mismatch : String
mismatch = "reviewed grouping inventory/blob/isolation plan mismatch"

abbrev pub or_mismatch {ℓ} : {A : Type ℓ} → Option A → Result A
or_mismatch none = err (value_error mismatch)
or_mismatch (some a) = ok a

-- The groups of the plan. No other iterable passes the source's comparison with the paths.
unfoldable pub read_groups : Json → Result (List (List String))
read_groups (arr vs) = or_mismatch (groups_of vs)
read_groups (obj fs) = err (value_error mismatch)
read_groups (str s) = err (value_error mismatch)
read_groups v = err type_error

-- The isolated paths of the plan; what is no list of texts is refused.
unfoldable pub read_isolated : Json → Result (List String)
read_isolated (arr vs) = or_mismatch (texts_of vs)
read_isolated (obj fs) = ok (keys fs)
read_isolated (str s) = err (value_error mismatch)
read_isolated v = err type_error

abbrev pub unbound : String
unbound = "missing reviewed runtime/SDK binding"

abbrev pub or_unbound {ℓ} : {A : Type ℓ} → Option A → Result A
or_unbound none = err (value_error unbound)
or_unbound (some a) = ok a

-- `set(value)`, for what may equal a set of names.
unfoldable pub name_set : Json → Result (List String)
name_set (obj fs) = ok (keys fs)
name_set (arr vs) = or_unbound (texts_of vs)
name_set (str s) = err (value_error unbound)
name_set v = err type_error

unfoldable pub same_names : List String → List String → Bool
same_names xs ys = all (λ x. contains ys x) xs && all (λ y. contains xs y) ys

-- `isinstance(group, list) and 1 <= len(group) <= 8`
abbrev pub is_sized : List String → Bool
is_sized group = leb 1 (length group) && leb (length group) 8

-- `not isinstance(sdk[key], str) or not sdk[key]`
abbrev pub is_missing : Option Json → Bool
is_missing (some (str s)) = s == ""
is_missing v = true

-- `frozen_sdk`
unfoldable pub frozen_sdk : Option Json → Result Json
frozen_sdk (some (obj fs)) = do
  raise_if
      (not (has_exact_keys fs sdk_keys) || not (all (λ k. not (is_missing (get k fs))) sdk_keys))
      "frozen grouped plan is missing the reviewed Flutter SDK"
  ok (obj fs)
frozen_sdk v = err (value_error "frozen grouped plan is missing the reviewed Flutter SDK")

-- The SDK and the groups of a run, and the mode.
pub record Plan : Type 0 where
  pub sdk : Json
  pub groups : List (List String)
  pub mode : ExecutionMode

module _ (as_integer : String → Option ℤ) (parent : String → String) (isolated : List String)
    (macos : String) (checkout : Checkout) where
  -- `schema == 1`
  unfoldable pub is_schema : Json → Bool
  unfolding int_eq
  is_schema v = same_integer as_integer (integral as_integer v) (some (pos 1))

  -- The tests of the groups.
  unfoldable pub groups_fit : List String → List (List String) → Bool
  groups_fit paths groups =
      all is_sized groups
      && flatten groups == expected_paths macos paths
      && not (shares_isolated isolated groups)
      && all (λ path. contains paths path) isolated

  -- The first test of `grouped_plan`, up to the groups.
  unfoldable pub check_inventory : List String → Fields → Result (Unit {0})
  check_inventory paths data_ = do
    schema ← item "schema" data_
    raise_if (not (is_schema schema)) mismatch
    files ← item "files" data_
    raise_if (not (is_table (digests checkout.sha256_of paths) files)) mismatch
    isolated_value ← item "isolated" data_
    isolated_paths ← read_isolated isolated_value
    raise_if (not (sorted_eq isolated_paths isolated)) mismatch
    macos_test ← item "macos_test" data_
    raise_if (not (is_text macos (some macos_test))) mismatch

  -- The rest of that test.
  unfoldable pub check_groups : List String → Json → Result (List (List String))
  check_groups paths all_groups = do
    groups ← read_groups all_groups
    raise_if (not (groups_fit paths groups)) mismatch
    ok groups

  -- The tests of the bindings, which give the SDK.
  unfoldable pub check_bindings : Fields → Result Json
  check_bindings data_ = do
    runtime_value ← item "runtime_files" data_
    runtime_names ← name_set runtime_value
    raise_if (not (same_names runtime_names ("pubspec.lock" ∷ []))) unbound
    sdk ← item "sdk" data_
    sdk_names ← name_set sdk
    raise_if (not (same_names sdk_names sdk_keys)) unbound
    runtime ← items_of_dict runtime_value
    raise_if (not (is_text (checkout.sha256_of "pubspec.lock") (get "pubspec.lock" runtime)))
        "reviewed grouping runtime lock mismatch"
    lib_tree ← item "lib_tree" data_
    raise_if (not (is_text checkout.lib_tree (some lib_tree)))
        "reviewed grouping runtime tree mismatch"
    ok sdk

  unfoldable pub grouped_plan : List String → Result Plan
  grouped_plan paths = do
    data_ ← fields_of checkout.plan
    all_groups ← item "groups" data_
    check_inventory paths data_
    groups ← check_groups paths all_groups
    sdk ← check_bindings data_
    ok (record { sdk = sdk; groups = groups; mode = reviewed })

  -- Whether the checkout is the one that the plan was reviewed for.
  unfoldable pub is_reviewed : List String → Fields → Result Bool
  is_reviewed paths grouped = do
    files ← item "files" grouped
    if not (is_table (digests checkout.sha256_of paths) files) then ok false else (do
      lib_tree ← item "lib_tree" grouped
      if not (is_text checkout.lib_tree (some lib_tree)) then ok false else (do
        runtime ← item "runtime_files" grouped
        ok (is_table (digests checkout.sha256_of ("pubspec.lock" ∷ [])) runtime)))

  unfoldable pub directory_plan : List String → Fields → Result Plan
  directory_plan paths grouped = do
    sdk ← frozen_sdk (get "live_sdk" grouped)
    groups ← directory_groups parent isolated macos paths
    assert_directory_groups parent isolated macos groups paths
    ok (record { sdk = sdk; groups = groups; mode = by_directory })

  unfoldable pub execution_plan : List String → Result Plan
  execution_plan paths = do
    raise_if (not (checkout.plan_sha256 == grouped_plan_sha256))
        "reviewed grouping control digest mismatch"
    grouped ← fields_of checkout.plan
    reviewed_checkout ← is_reviewed paths grouped
    if reviewed_checkout then grouped_plan paths else directory_plan paths grouped
