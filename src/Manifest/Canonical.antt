-- ===== src/Manifest/Canonical.antt =====
-- `_canonical_json`: the text over which a manifest is signed.
pub mod Normal
pub mod Printed
pub mod Literals
pub mod Prefix
pub mod Binding
use yuelink_ci.Prelude.{ℕ, ◌<>◌, String, Bool, true, false, ◌&&◌, ◌||◌, List, [], ◌∷◌, codes, ltb}
use yuelink_ci.Prelude.{◌==◌, nat_eq, if◌then◌else◌}
use yuelink_ci.Prelude.Result.{Result, ok, err, value_error, ◌>>=◌}
use yuelink_ci.Json.{
  Json, null, bool, int, float, str, arr, obj, Items, nil, cons, Fields, end, field,
}
use yuelink_ci.Manifest.{Library}

-- The order of Python's texts: that of their code points.
unfoldable pub codes_leb : List ℕ → List ℕ → Bool
codes_leb [] t = true
codes_leb (c ∷ s) [] = false
codes_leb (c ∷ s) (d ∷ t) = ltb c d || c == d && codes_leb s t

-- One member of an object: its key, and its text.
abbrev pub Member : Type 0
Member = String × String

-- A step of `sorted(value)`.
unfoldable pub insert_member : Member → List Member → List Member
insert_member m [] = m ∷ []
insert_member (k, t) ((j, u) ∷ ms) =
    if codes_leb (codes k) (codes j) then (k, t) ∷ (j, u) ∷ ms else (j, u) ∷ insert_member (k, t) ms

unfoldable pub sort_members : List Member → List Member
sort_members [] = []
sort_members (m ∷ ms) = insert_member m (sort_members ms)

-- `",".join(texts)`
unfoldable pub join : List String → String
join [] = ""
join (t ∷ []) = t
join (t ∷ u ∷ ts) = t <> ("," <> join (u ∷ ts))

abbrev pub texts : List Member → List String
texts [] = []
texts ((k, t) ∷ ms) = t ∷ texts ms

module _ (lib : Library) where
  unfoldable mutual
    pub canonical_json : Json → Result String
    canonical_json null = ok "null"
    canonical_json (bool b) = ok (if b then "true" else "false")
    canonical_json (int n) = ok (lib.show n)
    canonical_json (str s) = ok (lib.dumps s)
    canonical_json (arr vs) = do ts ← canonical_items vs; ok ("[" <> (join ts <> "]"))
    canonical_json (obj fs) = do
      ms ← canonical_fields fs
      ok ("{" <> (join (texts (sort_members ms)) <> "}"))
    canonical_json (float x) = err (value_error "unsupported canonical JSON value")

    pub canonical_items : Items → Result (List String)
    canonical_items nil = ok []
    canonical_items (cons v vs) = do t ← canonical_json v; ts ← canonical_items vs; ok (t ∷ ts)

    -- The members in the order of the dictionary, each as `"key":value`.
    pub canonical_fields : Fields → Result (List Member)
    canonical_fields end = ok []
    canonical_fields (field k v fs) = do
      t ← canonical_json v
      ms ← canonical_fields fs
      ok ((k, lib.dumps k <> (":" <> t)) ∷ ms)
