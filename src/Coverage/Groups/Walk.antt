-- ===== src/Coverage/Groups/Walk.antt =====
-- The loop of `directory_groups` over `order`: it finds every directory's bucket.
use yuelink_ci.Prelude.{◌+◌, ◌≡◌, refl, String, false, List, [], ◌∷◌, All, arith}
use yuelink_ci.Prelude.{string_eq, ==_self}
use yuelink_ci.Prelude.Result.{ok}
use yuelink_ci.Coverage.Groups.{has_key, bucket, place_bucket, place_order}
use yuelink_ci.Coverage.Groups.Chunks.{count_groups, count_groups-place_bucket}
use yuelink_ci.Coverage.Groups.Formed.{IsGroup, place_bucket-IsGroup}
use yuelink_ci.Coverage.Groups.Buckets.{Dict, dict_keys, NodupKeys, count_buckets}
use yuelink_ci.Coverage.Groups.Order.{InDirectory}

abbrev pub Found : Dict → String × List String → Type 0
Found full (k, v) = bucket k full ≡ ok v

Found-cons :
    (j : String) (w : List String) (full d : Dict)
    → has_key j d ≡ false
    → All (Found full) d
    → All (Found ((j, w) ∷ full)) d
unfolding bucket has_key
Found-cons j w full [] fresh h = tt
Found-cons j w full ((k, v) ∷ d) fresh h =
    (ground (arith, h.0), Found-cons j w full d (ground arith) h.1)

pub Found-self : (d : Dict) → NodupKeys d → All (Found d) d
unfolding bucket
Found-self [] h = tt
Found-self ((j, w) ∷ d) h = (rw ==_self, Found-cons j w d d h.0 (Found-self d h.1))

module _ (parent : String → String) (isolated : List String) where
  -- The loop ends with groups that are well formed and hold what the rest of the buckets hold.
  pub record IsPlaced (buckets rest : Dict) (groups : List (List String)) (out : List (List String))
      : Type 0 where
    pub returned : place_order isolated buckets (dict_keys rest) groups ≡ ok out
    pub formed : All (IsGroup parent isolated) out
    pub kept : (x : String) → count_groups x out ≡ count_groups x groups + count_buckets x rest

  pub place_order-IsPlaced :
      (buckets rest : Dict) (groups : List (List String))
      → All (Found buckets) rest
      → All (InDirectory parent) rest
      → All (IsGroup parent isolated) groups
      → (out : List (List String)) × IsPlaced buckets rest groups out
  unfolding place_order count_buckets
  place_order-IsPlaced buckets [] groups found filed h =
      (groups, record { returned = refl; formed = h; kept = λ x. omega arith })
  place_order-IsPlaced buckets ((k, v) ∷ rest) groups found filed h =
      let (out, p) =
        place_order-IsPlaced buckets rest (place_bucket isolated groups v) found.1 filed.1
          (place_bucket-IsGroup parent isolated k groups v h filed.0) in
      (
        out,
        record {
          returned = rw found.0 p.returned;
          formed = p.formed;
          kept = λ x. omega (arith, p.kept x, count_groups-place_bucket isolated x groups v);
        },
      )
