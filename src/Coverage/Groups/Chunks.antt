-- ===== src/Coverage/Groups/Chunks.antt =====
-- The inner loop of `directory_groups`: which paths one bucket adds to the groups.
use mathlib.Core.List.{flatten}
use yuelink_ci.Prelude.{ℕ, ◌+◌, ◌≡◌, refl, inl, inr, Bool-cases, String, List, [], ◌∷◌, ◌++◌}
use yuelink_ci.Prelude.{arith, contains, string_eq, nat_eq}
use yuelink_ci.Coverage.Groups.{Chunk, flush, cut, place, place_all, place_bucket, count}

pub count-append : (x : String) (a b : List String) → count x (a ++ b) ≡ count x a + count x b
unfolding count
count-append x [] b = omega arith
count-append x (y ∷ a) b = ground (arith, count-append x a b)

-- How often `x` stands in the groups.
unfoldable pub count_groups : String → List (List String) → ℕ
count_groups x [] = 0
count_groups x (g ∷ gs) = count x g + count_groups x gs

pub count-flatten :
    (x : String) (gs : List (List String)) → count x (flatten gs) ≡ count_groups x gs
unfolding count flatten count_groups
count-flatten x [] = refl
count-flatten x (g ∷ gs) = omega (arith, count-append x g (flatten gs), count-flatten x gs)

pub count_groups-append :
    (x : String) (a b : List (List String))
    → count_groups x (a ++ b) ≡ count_groups x a + count_groups x b
unfolding count_groups
count_groups-append x [] b = omega arith
count_groups-append x (g ∷ a) b = omega (arith, count_groups-append x a b)

count_groups-add :
    (x : String) (gs : List (List String)) (g : List String)
    → count_groups x (gs ++ g ∷ []) ≡ count_groups x gs + count x g
unfolding count_groups
count_groups-add x gs g = omega (arith, count_groups-append x gs (g ∷ []))

count_groups-flush :
    (x : String) (gs : List (List String)) (g : List String)
    → count_groups x (flush gs g) ≡ count_groups x gs + count x g
unfolding count
count_groups-flush x gs [] = omega arith
count_groups-flush x gs (p ∷ ps) = count_groups-add x gs (p ∷ ps)

abbrev total : String → Chunk → ℕ
total x c = count_groups x c.groups + count x c.ordinary

total-cut : (x : String) (c : Chunk) → total x (cut c) ≡ total x c
unfolding count
total-cut x c = ground (arith, count_groups-add x c.groups c.ordinary)

count-nil : (x : String) → count x [] ≡ 0
unfolding count
count-nil x = refl

module _ (isolated : List String) where
  total-place :
      (x : String) (c : Chunk) (path : String)
      → total x (place isolated c path) ≡ total x c + count x (path ∷ [])
  unfolding place
  total-place x c path = elim (Bool-cases (contains isolated path)) [
    | inl alone ↦ rw alone (
        omega (
          arith,
          count_groups-add x (flush c.groups c.ordinary) (path ∷ []),
          count_groups-flush x c.groups c.ordinary,
          count-nil x,
        ))
    | inr plain ↦ rw plain (
        omega (
          arith,
          total-cut x (record c { ordinary = c.ordinary ++ path ∷ [] }),
          count-append x c.ordinary (path ∷ []),
        ))
  ]

  total-place_all :
      (x : String) (c : Chunk) (paths : List String)
      → total x (place_all isolated c paths) ≡ total x c + count x paths
  unfolding place_all
  total-place_all x c [] = omega (arith, count-nil x)
  total-place_all x c (path ∷ paths) = omega (
    arith,
    total-place_all x (place isolated c path) paths,
    total-place x c path,
    count-append x (path ∷ []) paths,
  )

  -- A bucket's paths are added to the groups, each as often as it stands there.
  pub count_groups-place_bucket :
      (x : String) (groups : List (List String)) (paths : List String)
      → count_groups x (place_bucket isolated groups paths) ≡ count_groups x groups + count x paths
  unfolding place_bucket
  count_groups-place_bucket x groups paths =
      let c : Chunk = place_all isolated (record { groups = groups; ordinary = [] }) paths in
      omega (
        arith,
        count_groups-flush x c.groups c.ordinary,
        total-place_all x (record { groups = groups; ordinary = [] }) paths,
        count-nil x,
      )
