-- ===== src/Coverage/Groups.antt =====
-- `directory_groups` and `assert_directory_groups`. An inventory is given by the path that each of
-- its one-element lists holds. `parent`, which is `str(Path(path).parent)`, is a parameter; so are
-- the paths that run alone and the path left to macOS, for which the source has constants.
pub mod Chunks
pub mod Formed
pub mod Buckets
pub mod Order
pub mod Walk
pub mod Accepted
use mathlib.Core.List.{flatten}
use yuelink_ci.Prelude.{ℕ, ◌+◌, String, Bool, true, false, not, ◌&&◌, ◌||◌, List, [], ◌∷◌, ◌++◌}
use yuelink_ci.Prelude.{map, length, any, all, leb, ◌==◌, contains, if◌then◌else◌}
use yuelink_ci.Prelude.{string_eq, nat_eq, list_eq}
use yuelink_ci.Prelude.Result.{Result, ok, err, key_error, ◌>>=◌, ◌>>◌, raise_if}

-- `buckets`, in insertion order, and `order`.
pub record Index : Type 0 where
  pub order : List String
  pub buckets : List (String × List String)

-- `parent in buckets`
unfoldable pub has_key : String → List (String × List String) → Bool
has_key k [] = false
has_key k ((j, _) ∷ d) = k == j || has_key k d

-- `buckets[parent].append(path)`, after the key was added.
unfoldable pub append_at :
    String → String → List (String × List String) → List (String × List String)
append_at k path [] = []
append_at k path ((j, v) ∷ d) =
    if k == j then (j, v ++ path ∷ []) ∷ d else (j, v) ∷ append_at k path d

-- `buckets[parent]`
unfoldable pub bucket : String → List (String × List String) → Result (List String)
bucket k [] = err key_error
bucket k ((j, v) ∷ d) = if k == j then ok v else bucket k d

-- `set(items)`, as a list without repetitions.
unfoldable pub set_of : List String → List String
set_of [] = []
set_of (x ∷ xs) = let rest = set_of xs in if contains rest x then rest else x ∷ rest

-- How often `x` stands in the list.
unfoldable pub count : String → List String → ℕ
count x [] = 0
count x (y ∷ ys) = if x == y then count x ys + 1 else count x ys

-- `sorted(a) == sorted(b)`: every path stands in both equally often.
unfoldable pub sorted_eq : List String → List String → Bool
unfolding count
sorted_eq a b = all (λ x. count x a == count x b) (a ++ b)

-- `groups` and `ordinary` of the inner loop.
pub record Chunk : Type 0 where
  pub groups : List (List String)
  pub ordinary : List String

-- `if ordinary: groups.append(ordinary)`
abbrev pub flush : List (List String) → List String → List (List String)
flush groups [] = groups
flush groups (p ∷ ps) = groups ++ (p ∷ ps) ∷ []

-- `if len(ordinary) == 8: groups.append(ordinary); ordinary = []`
abbrev pub cut : Chunk → Chunk
cut c =
    if length c.ordinary == 8
    then record { groups = c.groups ++ c.ordinary ∷ []; ordinary = [] }
    else c

module _ (isolated : List String) where
  unfoldable pub place : Chunk → String → Chunk
  place c path =
      if contains isolated path
      then record { groups = flush c.groups c.ordinary ++ (path ∷ []) ∷ []; ordinary = [] }
      else cut (record c { ordinary = c.ordinary ++ path ∷ [] })

  unfoldable pub place_all : Chunk → List String → Chunk
  place_all c [] = c
  place_all c (path ∷ paths) = place_all (place c path) paths

  -- The body of the loop over `order`, for one bucket.
  unfoldable pub place_bucket : List (List String) → List String → List (List String)
  unfolding place_all place
  place_bucket groups paths =
      let c = place_all (record { groups = groups; ordinary = [] }) paths in
      flush c.groups c.ordinary

  unfoldable pub place_order :
      List (String × List String) → List String → List (List String) → Result (List (List String))
  place_order buckets [] groups = ok groups
  place_order buckets (parent ∷ order) groups =
      bucket parent buckets >>= λ paths. place_order buckets order (place_bucket groups paths)

  -- `any(path in ISOLATED and group != [path] for group in groups for path in group)`
  unfoldable pub shares_isolated : List (List String) → Bool
  shares_isolated groups =
      any (λ group. any (λ path. contains isolated path && not (group == path ∷ [])) group) groups

module _ (macos : String) where
  -- The paths that the source does not skip.
  unfoldable pub expected_paths : List String → List String
  expected_paths [] = []
  expected_paths (p ∷ ps) = if p == macos then expected_paths ps else p ∷ expected_paths ps

module _ (parent : String → String) where
  -- `not group or len(group) > 8 or len({str(Path(path).parent) for path in group}) != 1`
  unfoldable pub is_malformed : List String → Bool
  unfolding set_of
  is_malformed [] = true
  is_malformed (p ∷ ps) =
      not (leb (length (p ∷ ps)) 8) || not (length (set_of (map parent (p ∷ ps))) == 1)

  -- The body of the first loop.
  unfoldable pub index_path : String → Index → String → Index
  unfolding has_key append_at
  index_path macos s path =
      if path == macos
      then s
      else if has_key (parent path) s.buckets
      then record s { buckets = append_at (parent path) path s.buckets }
      else record {
        order = s.order ++ parent path ∷ [];
        buckets = append_at (parent path) path (s.buckets ++ (parent path, []) ∷ []);
      }

  unfoldable pub index_paths : String → Index → List String → Index
  index_paths macos s [] = s
  index_paths macos s (p ∷ ps) = index_paths macos (index_path macos s p) ps

module _ (parent : String → String) (isolated : List String) (macos : String) where
  unfoldable pub directory_groups : List String → Result (List (List String))
  unfolding index_paths index_path place_order place_bucket bucket
  directory_groups inventory =
      let s = index_paths parent macos (record { order = []; buckets = [] }) inventory in
      place_order isolated s.buckets s.order []

  unfoldable pub assert_directory_groups : List (List String) → List String → Result (Unit {0})
  unfolding expected_paths shares_isolated sorted_eq is_malformed
  assert_directory_groups groups inventory =
      let expected = expected_paths macos inventory in
      let covered = flatten groups in
      do
        raise_if (shares_isolated isolated groups) "isolated path inside a multi-file group"
        raise_if
            (not (sorted_eq covered expected)
              || not (length covered == length (set_of covered))
              || any (is_malformed parent) groups)
            "PLAN_INCOMPLETE"
        ok tt
