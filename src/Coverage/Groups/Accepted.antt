-- ===== src/Coverage/Groups/Accepted.antt =====
-- What `directory_groups` makes, `assert_directory_groups` accepts.
use mathlib.Core.List.{flatten}
use yuelink_ci.Prelude.{suc, ◌≤◌, ◌≡◌, refl, ap, String, true, false}
use yuelink_ci.Prelude.{List, [], ◌∷◌, ◌++◌, length, all, any, All, arith}
use yuelink_ci.Prelude.{◌==◌, contains, string_eq, nat_eq, list_eq, ==_self}
use yuelink_ci.Prelude.Result.{ok}
use yuelink_ci.Coverage.Groups.{Index, count, set_of, sorted_eq, shares_isolated, expected_paths}
use yuelink_ci.Coverage.Groups.{
  is_malformed, index_paths, directory_groups, assert_directory_groups,
}
use yuelink_ci.Coverage.Groups.Chunks.{count-flatten, count_groups}
use yuelink_ci.Coverage.Groups.Formed.{IsGroup}
use yuelink_ci.Coverage.Groups.Buckets.{count_buckets}
use yuelink_ci.Coverage.Groups.Order.{index_paths-IsIndex, count_buckets-index_paths}
use yuelink_ci.Coverage.Groups.Walk.{place_order-IsPlaced, Found-self}

-- No path stands twice in the list.
abbrev pub IsDistinct : List String → Type 0
IsDistinct l = (x : String) → count x l ≤ 1

sorted_eq-count_go :
    (a b l : List String)
    → ((x : String) → count x a ≡ count x b)
    → all (λ x. count x a == count x b) l ≡ true
sorted_eq-count_go a b [] h = refl
sorted_eq-count_go a b (x ∷ l) h = rw (h x, ==_self) (sorted_eq-count_go a b l h)

sorted_eq-count :
    (a b : List String) → ((x : String) → count x a ≡ count x b) → sorted_eq a b ≡ true
unfolding sorted_eq
sorted_eq-count a b h = sorted_eq-count_go a b (a ++ b) h

contains-set_of : (x : String) (l : List String) → count x l ≡ 0 → contains (set_of l) x ≡ false
unfolding set_of count
contains-set_of x [] h = refl
contains-set_of x (y ∷ l) h = ground (arith, contains-set_of x l)

length-set_of : (l : List String) → IsDistinct l → length (set_of l) ≡ length l
unfolding set_of count
length-set_of [] h = refl
length-set_of (x ∷ l) h =
    let once : count x l ≡ 0 = ground (arith, h x) in
    rw (contains-set_of x l once) (ap suc (length-set_of l (λ y. ground (arith, h y))))

count-expected_paths :
    (macos x : String) (l : List String) → count x (expected_paths macos l) ≤ count x l
unfolding expected_paths count
count-expected_paths macos x [] = omega arith
count-expected_paths macos x (y ∷ l) = ground (arith, count-expected_paths macos x l)

module _ (parent : String → String) (isolated : List String) (macos : String) where
  IsGroup-shares :
      (groups : List (List String))
      → All (IsGroup parent isolated) groups
      → shares_isolated isolated groups ≡ false
  unfolding shares_isolated
  IsGroup-shares [] h = refl
  IsGroup-shares (g ∷ gs) h = rw h.0.alone (IsGroup-shares gs h.1)

  IsGroup-malformed :
      (groups : List (List String))
      → All (IsGroup parent isolated) groups
      → any (is_malformed parent) groups ≡ false
  IsGroup-malformed [] h = refl
  IsGroup-malformed (g ∷ gs) h = rw h.0.formed (IsGroup-malformed gs h.1)

  -- The tests accept well-formed groups that hold the expected paths once each.
  accept :
      (groups : List (List String)) (inventory : List String)
      → All (IsGroup parent isolated) groups
      → ((x : String) → count x (flatten groups) ≡ count x (expected_paths macos inventory))
      → IsDistinct inventory
      → assert_directory_groups parent isolated macos groups inventory ≡ ok tt
  unfolding assert_directory_groups
  accept groups inventory formed same once =
      let distinct : IsDistinct (flatten groups) =
        λ x. omega (arith, same x, once x, count-expected_paths macos x inventory) in
      rw (
        IsGroup-shares groups formed,
        IsGroup-malformed groups formed,
        sorted_eq-count (flatten groups) (expected_paths macos inventory) same,
        length-set_of (flatten groups) distinct,
        ==_self,
      )

  -- For an inventory in which no path stands twice, `directory_groups` returns groups (its look-ups
  -- never fail), and `assert_directory_groups` accepts them for that inventory: every path but the
  -- macOS one is covered once, an isolated path runs alone, and a group has at least one and at
  -- most eight paths, all of one directory.
  pub directory_groups-accepted :
      (inventory : List String)
      → IsDistinct inventory
      → (groups : List (List String)) × (directory_groups parent isolated macos inventory
          ≡ ok groups)
        × (assert_directory_groups parent isolated macos groups inventory ≡ ok tt)
  unfolding directory_groups
  directory_groups-accepted inventory once =
      let start : Index = record { order = []; buckets = [] } in
      let s : Index = index_paths parent macos start inventory in
      let i =
        index_paths-IsIndex parent macos start inventory
          (record { ordered = refl; distinct = tt; filed = tt }) in
      let (groups, p) =
        place_order-IsPlaced parent isolated s.buckets s.buckets []
          (Found-self s.buckets i.distinct) i.filed tt in
      (
        groups,
        rw (← i.ordered) p.returned,
        accept groups inventory p.formed
            (λ x.
              unfold count_groups count_buckets count in
              omega (
                arith,
                count-flatten x groups,
                p.kept x,
                count_buckets-index_paths parent x macos start inventory,
              ))
            once,
      )
