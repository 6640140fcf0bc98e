-- ===== src/Manifest/Canonical/Normal.antt =====
-- A document with the members of its objects in the order in which `_canonical_json` prints them.
use yuelink_ci.Prelude.{
  ℕ, ◌≡◌, refl, ap, String, true, List, [], ◌∷◌, codes, Option, none, some, ◌==◌, ==→eq, string_eq,
  nat_eq, if◌then◌else◌, Bool-cases, inl, inr, arith,
}
use yuelink_ci.Json.{
  Json, null, bool, int, float, str, arr, obj, Items, nil, cons, Fields, end, field, get,
}
use yuelink_ci.Manifest.Canonical.{codes_leb}

unfoldable pub insert_field : String → Json → Fields → Fields
insert_field k v end = field k v end
insert_field k v (field j w fs) =
    if codes_leb (codes k) (codes j)
    then field k v (field j w fs)
    else field j w (insert_field k v fs)

unfoldable mutual
  pub normal : Json → Json
  normal (arr vs) = arr (normal_items vs)
  normal (obj fs) = obj (normal_fields fs)
  normal null = null
  normal (bool b) = bool b
  normal (int n) = int n
  normal (float x) = float x
  normal (str s) = str s

  pub normal_items : Items → Items
  normal_items nil = nil
  normal_items (cons v vs) = cons (normal v) (normal_items vs)

  pub normal_fields : Fields → Fields
  normal_fields end = end
  normal_fields (field k v fs) = insert_field k (normal v) (normal_fields fs)

codes_leb_refl : (cs : List ℕ) → codes_leb cs cs ≡ true
unfolding codes_leb
codes_leb_refl [] = refl
codes_leb_refl (c ∷ cs) = ground (arith, codes_leb_refl cs)

get-insert_field :
    (j k : String) (v : Json) (fs : Fields)
    → get j (insert_field k v fs) ≡ (if j == k then some v else get j fs)
unfolding insert_field get
get-insert_field j k v end = refl
get-insert_field j k v (field i w fs) = elim (Bool-cases (codes_leb (codes k) (codes i))) [
  | inl before ↦ ground arith
  | inr behind ↦ elim (Bool-cases (k == i)) [
    | inl same ↦
        let equal : codes_leb (codes k) (codes k) ≡ codes_leb (codes k) (codes i) =
          ap (λ t. codes_leb (codes k) (codes t)) (==→eq k i same) in
        absurd (ground (arith, equal, codes_leb_refl (codes k)))
    | inr other ↦ ground (arith, get-insert_field j k v fs)
  ]
]

abbrev pub normal_member : Option Json → Option Json
normal_member none = none
normal_member (some v) = some (normal v)

-- The order of the members does not matter to a reader.
pub get-normal_fields :
    (k : String) (fs : Fields) → get k (normal_fields fs) ≡ normal_member (get k fs)
unfolding normal get
get-normal_fields k end = refl
get-normal_fields k (field j v fs) =
    ground (arith, get-insert_field k j (normal v) (normal_fields fs), get-normal_fields k fs)
