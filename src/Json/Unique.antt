-- ===== src/Json/Unique.antt =====
-- `_reject_duplicate_keys` (scripts/verify-update-manifest.py, scripts/verify-release-page-health.py)
-- and `no_duplicates` (scripts/attach-client-support-policy.py): the hook that `json.loads` calls
-- with the pairs of each object, the inner objects first. A document comes as the tree of its
-- pairs, and leaves as the tree of dictionaries.
use yuelink_ci.Prelude.{String, ◌≡◌, refl, ◌↔◌, List, [], ◌∷◌, ◌++◌, Distinct, AreNew, contains}
use yuelink_ci.Prelude.{AreNew-Distinct, AreNew-of_Distinct, string_eq, arith}
use yuelink_ci.Prelude.Result.{Result, ok, ◌>>=◌, ◌>>◌, raise_if, value_or}
use yuelink_ci.Json.{Json, null, bool, int, float, str, arr, obj, Items, nil, cons}
use yuelink_ci.Json.{Fields, end, field, keys}

-- The loop over the pairs; `seen` holds the keys of `result`.
unfoldable pub reject_duplicate_keys : List String → Fields → Result Fields
reject_duplicate_keys seen end = ok end
reject_duplicate_keys seen (field k v fs) = do
  raise_if (contains seen k) "duplicate JSON key"
  rest ← reject_duplicate_keys (seen ++ k ∷ []) fs
  ok (field k v rest)

unfoldable mutual
  -- The hook at every object of a document.
  pub hook : Json → Result Json
  hook (arr vs) = do vs' ← hook_items vs; ok (arr vs')
  hook (obj fs) = do fs' ← hook_fields fs; fs'' ← reject_duplicate_keys [] fs'; ok (obj fs'')
  hook null = ok null
  hook (bool b) = ok (bool b)
  hook (int n) = ok (int n)
  hook (float x) = ok (float x)
  hook (str s) = ok (str s)

  pub hook_items : Items → Result Items
  hook_items nil = ok nil
  hook_items (cons v vs) = do v' ← hook v; vs' ← hook_items vs; ok (cons v' vs')

  pub hook_fields : Fields → Result Fields
  hook_fields end = ok end
  hook_fields (field k v fs) = do v' ← hook v; fs' ← hook_fields fs; ok (field k v' fs')

-- No object of the document has a key twice, at any depth.
mutual
  pub HasUniqueKeys : Json → Type 0
  HasUniqueKeys (arr vs) = HaveUniqueKeys vs
  HasUniqueKeys (obj fs) = Distinct (keys fs) × FieldsHaveUniqueKeys fs
  HasUniqueKeys null = Unit
  HasUniqueKeys (bool b) = Unit
  HasUniqueKeys (int n) = Unit
  HasUniqueKeys (float x) = Unit
  HasUniqueKeys (str s) = Unit

  pub HaveUniqueKeys : Items → Type 0
  HaveUniqueKeys nil = Unit
  HaveUniqueKeys (cons v vs) = HasUniqueKeys v × HaveUniqueKeys vs

  pub FieldsHaveUniqueKeys : Fields → Type 0
  FieldsHaveUniqueKeys end = Unit
  FieldsHaveUniqueKeys (field k v fs) = HasUniqueKeys v × FieldsHaveUniqueKeys fs

reject-AreNew :
    (seen : List String) (fs gs : Fields)
    → reject_duplicate_keys seen fs ≡ ok gs
    → (gs ≡ fs) × AreNew seen (keys fs)
unfolding reject_duplicate_keys
reject-AreNew seen end gs h = (ground arith, tt)
reject-AreNew seen (field k v fs) end h = absurd (ground arith)
reject-AreNew seen (field k v fs) (field j w gs) h =
    let (same, new) = reject-AreNew (seen ++ k ∷ []) fs gs (ground arith) in
    (ground arith, (ground arith, new))

AreNew-reject :
    (seen : List String) (fs : Fields)
    → AreNew seen (keys fs)
    → reject_duplicate_keys seen fs ≡ ok fs
unfolding reject_duplicate_keys
AreNew-reject seen end h = refl
AreNew-reject seen (field k v fs) h = rw (h.0, AreNew-reject (seen ++ k ∷ []) fs h.1)

mutual
  unfolding hook HasUniqueKeys

  sound : (v w : Json) → hook v ≡ ok w → (w ≡ v) × HasUniqueKeys v
  sound (arr vs) w h =
      let ws : Items = value_or nil (hook_items vs) in
      let more = sound_items vs ws (ground arith) in (ground arith, more.1)
  sound (obj fs) w h =
      let gs : Fields = value_or end (hook_fields fs) in
      let hs : Fields = value_or end (reject_duplicate_keys [] gs) in
      let more = sound_fields fs gs (ground arith) in
      let all = reject-AreNew [] gs hs (ground arith) in
      (ground arith, (AreNew-Distinct [] (keys fs) (rw more.0 at all.1), more.1))
  sound null w h = (ground arith, tt)
  sound (bool b) w h = (ground arith, tt)
  sound (int n) w h = (ground arith, tt)
  sound (float x) w h = (ground arith, tt)
  sound (str s) w h = (ground arith, tt)

  sound_items : (vs ws : Items) → hook_items vs ≡ ok ws → (ws ≡ vs) × HaveUniqueKeys vs
  sound_items nil ws h = (ground arith, tt)
  sound_items (cons v vs) nil h = absurd (ground arith)
  sound_items (cons v vs) (cons w ws) h =
      let one = sound v w (ground arith) in
      let more = sound_items vs ws (ground arith) in (ground arith, (one.1, more.1))

  sound_fields : (fs gs : Fields) → hook_fields fs ≡ ok gs → (gs ≡ fs) × FieldsHaveUniqueKeys fs
  sound_fields end gs h = (ground arith, tt)
  sound_fields (field k v fs) end h = absurd (ground arith)
  sound_fields (field k v fs) (field j w gs) h =
      let one = sound v w (ground arith) in
      let more = sound_fields fs gs (ground arith) in (ground arith, (one.1, more.1))

mutual
  unfolding hook HasUniqueKeys

  complete : (v : Json) → HasUniqueKeys v → hook v ≡ ok v
  complete (arr vs) h = rw (complete_items vs h)
  complete (obj fs) h =
      rw (complete_fields fs h.1, AreNew-reject [] fs (AreNew-of_Distinct (keys fs) h.0))
  complete null h = refl
  complete (bool b) h = refl
  complete (int n) h = refl
  complete (float x) h = refl
  complete (str s) h = refl

  complete_items : (vs : Items) → HaveUniqueKeys vs → hook_items vs ≡ ok vs
  complete_items nil h = refl
  complete_items (cons v vs) h = rw (complete v h.0, complete_items vs h.1)

  complete_fields : (fs : Fields) → FieldsHaveUniqueKeys fs → hook_fields fs ≡ ok fs
  complete_fields end h = refl
  complete_fields (field k v fs) h = rw (complete v h.0, complete_fields fs h.1)

-- The hook returns a value exactly when no object of the document has a key twice, at any depth,
-- and then it is the document itself.
pub hook-HasUniqueKeys : (v w : Json) → (hook v ≡ ok w) ↔ ((w ≡ v) × HasUniqueKeys v)
hook-HasUniqueKeys v w = (sound v w, λ h. rw h.0 (complete v h.1))
