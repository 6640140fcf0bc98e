-- ===== src/Json.antt =====
-- What `json.loads` gives: Python values, with a `dict` as its items in insertion order.
pub mod Unique
pub mod Keys
use yuelink_ci.Prelude.{String, Bool, true, false, Option, none, some, List, [], ◌∷◌}
use yuelink_ci.Prelude.{◌==◌, string_eq, if◌then◌else◌, ◌≡◌, arith}
use yuelink_ci.Prelude.{◌&&◌, all, contains}
use yuelink_ci.Prelude.Result.{Result, ok, err, key_error}
use yuelink_ci.Prelude.Int.{ℤ}

-- A float is kept as its `repr`: the source tells it apart and never computes with it.
mutual
  pub data Json : Type 0 where
    null : Json
    bool : Bool → Json
    int : ℤ → Json
    float : String → Json
    str : String → Json
    arr : Items → Json
    obj : Fields → Json

  pub data Items : Type 0 where
    nil : Items
    cons : Json → Items → Items

  pub data Fields : Type 0 where
    end : Fields
    field : String → Json → Fields → Fields

-- `list(d)`
abbrev pub keys : Fields → List String
keys end = []
keys (field k v fs) = k ∷ keys fs

-- `list(items)`
abbrev pub elements : Items → List Json
elements nil = []
elements (cons v vs) = v ∷ elements vs

-- `d.get(key)`, with `none` for a missing key.
unfoldable pub get : String → Fields → Option Json
get k end = none
get k (field j v fs) = if k == j then some v else get k fs

-- `d[key]`
unfoldable pub item : String → Fields → Result Json
item k end = err key_error
item k (field j v fs) = if k == j then ok v else item k fs

-- `set(d) == set(expected)`
unfoldable pub has_exact_keys : Fields → List String → Bool
has_exact_keys fs expected =
    all (λ k. contains expected k) (keys fs) && all (λ k. contains (keys fs) k) expected

-- `value == text`, for a value that may be missing.
abbrev pub is_text : String → Option Json → Bool
is_text t (some (str s)) = s == t
is_text t _ = false

-- `value is True`, for a value that may be missing.
abbrev pub is_true : Option Json → Bool
is_true (some (bool true)) = true
is_true _ = false

-- A value equals at most one of two texts.
pub is_text_distinct :
    (a b : String) (v : Option Json) → (a == b) ≡ false → is_text a v ≡ true → is_text b v ≡ false
is_text_distinct a b (some (str s)) ne h = ground arith
is_text_distinct a b v ne h = ground arith
