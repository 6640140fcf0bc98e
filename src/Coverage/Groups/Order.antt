-- ===== src/Coverage/Groups/Order.antt =====
-- The loops of `directory_groups` over the inventory and over `order`.
use yuelink_ci.Prelude.{◌+◌, ◌≡◌, ap, inl, inr, Bool-cases, String}
use yuelink_ci.Prelude.{List, [], ◌∷◌, ◌++◌, All, All-append, arith, ◌==◌, string_eq, ==_self}
use yuelink_ci.Coverage.Groups.{Index, has_key, append_at, count}
use yuelink_ci.Coverage.Groups.{expected_paths, index_path, index_paths}
use yuelink_ci.Coverage.Groups.Chunks.{count-append}
use yuelink_ci.Coverage.Groups.Buckets.{
  Dict, dict_keys, NodupKeys, count_buckets, keys-append_at, append_at-NodupKeys,
  count_buckets-append_at, has_key-add, add-NodupKeys, keys-add, count_buckets-add,
}

module _ (parent : String → String) where
  abbrev pub InDirectory : String × List String → Type 0
  InDirectory (k, v) = All (λ q. parent q ≡ k) v

  append_at-InDirectory :
      (path : String) (d : Dict)
      → All InDirectory d
      → All InDirectory (append_at (parent path) path d)
  unfolding append_at
  append_at-InDirectory path [] h = tt
  append_at-InDirectory path ((j, v) ∷ d) h = elim (Bool-cases (parent path == j)) [
    | inl same ↦ rw same (All-append (λ q. parent q ≡ j) v (path ∷ []) h.0 (ground arith, tt), h.1)
    | inr other ↦ rw other (h.0, append_at-InDirectory path d h.1)
  ]

  -- `order` lists the keys of `buckets`, no key twice, and each path lies in its key's directory.
  pub record IsIndex (s : Index) : Type 0 where
    pub ordered : dict_keys s.buckets ≡ s.order
    pub distinct : NodupKeys s.buckets
    pub filed : All InDirectory s.buckets

  index_path-IsIndex :
      (macos : String) (s : Index) (path : String)
      → IsIndex s
      → IsIndex (index_path parent macos s path)
  unfolding index_path
  index_path-IsIndex macos s path h = elim (Bool-cases (path == macos)) [
    | inl skip ↦ rw skip h
    | inr keep ↦ elim (Bool-cases (has_key (parent path) s.buckets)) [
      | inl old ↦
          rw (keep, old)
            (record {
              ordered = rw keys-append_at h.ordered;
              distinct = append_at-NodupKeys (parent path) path s.buckets h.distinct;
              filed = append_at-InDirectory path s.buckets h.filed;
            })
      | inr new ↦
          rw (keep, new)
            (record {
              ordered = rw (keys-append_at, keys-add) (ap (λ l. l ++ parent path ∷ []) h.ordered);
              distinct =
                  append_at-NodupKeys (parent path) path (s.buckets ++ (parent path, []) ∷ [])
                    (add-NodupKeys (parent path) s.buckets h.distinct new);
              filed =
                  append_at-InDirectory path (s.buckets ++ (parent path, []) ∷ [])
                    (All-append InDirectory s.buckets ((parent path, []) ∷ []) h.filed (tt, tt));
            })
    ]
  ]

  pub index_paths-IsIndex :
      (macos : String) (s : Index) (paths : List String)
      → IsIndex s
      → IsIndex (index_paths parent macos s paths)
  unfolding index_paths
  index_paths-IsIndex macos s [] h = h
  index_paths-IsIndex macos s (p ∷ ps) h =
      index_paths-IsIndex macos (index_path parent macos s p) ps (index_path-IsIndex macos s p h)

  count_buckets-index_path :
      (x macos : String) (s : Index) (path : String)
      → count_buckets x (index_path parent macos s path).buckets
        ≡ count_buckets x s.buckets + count x (expected_paths macos (path ∷ []))
  unfolding index_path expected_paths
  count_buckets-index_path x macos s path = elim (Bool-cases (path == macos)) [
    | inl skip ↦ rw skip (unfold count in omega arith)
    | inr keep ↦ elim (Bool-cases (has_key (parent path) s.buckets)) [
      | inl old ↦ rw (keep, old) (count_buckets-append_at x (parent path) path s.buckets old)
      | inr new ↦
          rw (keep, new)
            (omega (
              arith,
              count_buckets-append_at x (parent path) path (s.buckets ++ (parent path, []) ∷ [])
                  (rw (has_key-add, ==_self)),
              count_buckets-add x (parent path) s.buckets,
            ))
    ]
  ]

  expected_paths-cons :
      (x macos p : String) (ps : List String)
      → count x (expected_paths macos (p ∷ ps))
        ≡ count x (expected_paths macos (p ∷ [])) + count x (expected_paths macos ps)
  unfolding expected_paths
  expected_paths-cons x macos p ps = elim (Bool-cases (p == macos)) [
    | inl skip ↦ rw skip (unfold count in omega arith)
    | inr keep ↦ rw keep (count-append x (p ∷ []) (expected_paths macos ps))
  ]

  pub count_buckets-index_paths :
      (x macos : String) (s : Index) (paths : List String)
      → count_buckets x (index_paths parent macos s paths).buckets
        ≡ count_buckets x s.buckets + count x (expected_paths macos paths)
  unfolding index_paths
  count_buckets-index_paths x macos s [] = unfold expected_paths count in omega arith
  count_buckets-index_paths x macos s (p ∷ ps) = omega (
    arith,
    count_buckets-index_paths x macos (index_path parent macos s p) ps,
    count_buckets-index_path x macos s p,
    expected_paths-cons x macos p ps,
  )
