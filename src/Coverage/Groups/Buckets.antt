-- ===== src/Coverage/Groups/Buckets.antt =====
-- The dictionary of directories that the first loop of `directory_groups` fills.
use yuelink_ci.Prelude.{ℕ, ◌+◌, ◌≡◌, refl, inl, inr, Bool-cases, String, true, false}
use yuelink_ci.Prelude.{List, [], ◌∷◌, ◌++◌, arith, ◌==◌, if◌then◌else◌, string_eq}
use yuelink_ci.Coverage.Groups.{has_key, append_at, count}
use yuelink_ci.Coverage.Groups.Chunks.{count-append}

abbrev pub Dict : Type 0
Dict = List (String × List String)

abbrev pub dict_keys : Dict → List String
dict_keys [] = []
dict_keys ((k, _) ∷ d) = k ∷ dict_keys d

abbrev pub NodupKeys : Dict → Type 0
NodupKeys [] = Unit
NodupKeys ((k, _) ∷ d) = (has_key k d ≡ false) × NodupKeys d

unfoldable pub count_buckets : String → Dict → ℕ
count_buckets x [] = 0
count_buckets x ((_, v) ∷ d) = count x v + count_buckets x d

pub keys-append_at : (k path : String) (d : Dict) → dict_keys (append_at k path d) ≡ dict_keys d
unfolding append_at
keys-append_at k path [] = refl
keys-append_at k path ((j, v) ∷ d) = ground (arith, keys-append_at k path d)

has_key-append_at : (i k path : String) (d : Dict) → has_key i (append_at k path d) ≡ has_key i d
unfolding append_at has_key
has_key-append_at i k path [] = refl
has_key-append_at i k path ((j, v) ∷ d) = ground (arith, has_key-append_at i k path d)

pub append_at-NodupKeys :
    (k path : String) (d : Dict) → NodupKeys d → NodupKeys (append_at k path d)
unfolding append_at
append_at-NodupKeys k path [] h = tt
append_at-NodupKeys k path ((j, v) ∷ d) h =
    ground (arith, append_at-NodupKeys k path d h.1, has_key-append_at j k path d)

pub count_buckets-append_at :
    (x k path : String) (d : Dict)
    → has_key k d ≡ true
    → count_buckets x (append_at k path d) ≡ count_buckets x d + count x (path ∷ [])
unfolding append_at has_key count_buckets
count_buckets-append_at x k path [] h = cc
count_buckets-append_at x k path ((j, v) ∷ d) h = elim (Bool-cases (k == j)) [
  | inl same ↦ rw same (omega (arith, count-append x v (path ∷ [])))
  | inr other ↦ rw other (omega (arith, count_buckets-append_at x k path d (rw other at h)))
]

pub has_key-add :
    (i k : String) (d : Dict) (v : List String)
    → has_key i (d ++ (k, v) ∷ []) ≡ (if i == k then true else has_key i d)
unfolding has_key
has_key-add i k [] v = ground arith
has_key-add i k ((j, w) ∷ d) v = ground (arith, has_key-add i k d v)

pub add-NodupKeys :
    (k : String) (d : Dict) → NodupKeys d → has_key k d ≡ false → NodupKeys (d ++ (k, []) ∷ [])
unfolding has_key
add-NodupKeys k [] h fresh = (refl, tt)
add-NodupKeys k ((j, w) ∷ d) h fresh = ground (arith, add-NodupKeys k d h.1, has_key-add j k d [])

pub keys-add :
    (k : String) (d : Dict) (v : List String) → dict_keys (d ++ (k, v) ∷ []) ≡ dict_keys d ++ k ∷ []
keys-add k [] v = refl
keys-add k ((j, w) ∷ d) v = rw (keys-add k d v)

pub count_buckets-add :
    (x k : String) (d : Dict) → count_buckets x (d ++ (k, []) ∷ []) ≡ count_buckets x d
unfolding count_buckets count
count_buckets-add x k [] = refl
count_buckets-add x k ((j, w) ∷ d) = omega (arith, count_buckets-add x k d)
