-- ===== src/Manifest/Canonical/Binding.antt =====
-- The signed bytes determine what a reader finds in a manifest.
use mathlib.Core.List.{append-nil}
use yuelink_ci.Prelude.{
  ℕ, ◌≡◌, refl, sym, ap, subst, ◌∙◌, String, false, List, [], ◌∷◌, ◌++◌, codes, some, ◌==◌, ==→eq,
  string_eq, if◌then◌else◌, Bool-cases, inl, inr,
}
use yuelink_ci.Prelude.Result.{ok, value_or, >>=-eq-ok}
use yuelink_ci.Json.{
  Json, null, bool, int, float, str, arr, obj, Items, nil, cons, Fields, end, field, get,
}
use yuelink_ci.Manifest.{Library, Bytes, signature_domain}
use yuelink_ci.Manifest.Canonical.{
  Member, codes_leb, canonical_json, canonical_items, canonical_fields,
}
use yuelink_ci.Manifest.Canonical.Normal.{
  insert_field, normal, normal_items, normal_fields, normal_member, get-normal_fields,
}
use yuelink_ci.Manifest.Canonical.Printed.{print, canonical_json-printed}
use yuelink_ci.Manifest.Canonical.Literals.{AreLiterals, IsPlain, ArePlain, FieldsArePlain}
use yuelink_ci.Manifest.Canonical.Prefix.{print-prefix}
use yuelink_ci.Manifest.Verify.{without, signed_bytes}

insert_field-ArePlain :
    (k : String) (v : Json) (fs : Fields)
    → IsPlain v
    → FieldsArePlain fs
    → FieldsArePlain (insert_field k v fs)
unfolding insert_field IsPlain
insert_field-ArePlain k v end p q = (p, tt)
insert_field-ArePlain k v (field j w fs) p q = elim (Bool-cases (codes_leb (codes k) (codes j))) [
  | inl before ↦ rw before (p, q)
  | inr behind ↦ rw behind (q.0, insert_field-ArePlain k v fs p q.1)
]

get-without : (j k : String) (fs : Fields) → (j == k) ≡ false → get j (without k fs) ≡ get j fs
unfolding without get
get-without j k end ne = refl
get-without j k (field i v fs) ne = elim (Bool-cases (k == i)) [
  | inl same ↦
      let other : (j == i) ≡ false = subst (λ t. (j == t) ≡ false) (==→eq k i same) ne in
      rw same (rw other refl)
  | inr different ↦ rw different (ap (λ r. if j == i then some v else r) (get-without j k fs ne))
]

module _ (lib : Library) where
  mutual
    unfolding canonical_json normal IsPlain

    normal-IsPlain : (v : Json) (t : String) → canonical_json lib v ≡ ok t → IsPlain (normal v)
    normal-IsPlain (float x) t h = cc
    normal-IsPlain (arr vs) t h =
        let (ts, one, same) = >>=-eq-ok (canonical_items lib vs) _ h in
        normal_items-ArePlain vs ts one
    normal-IsPlain (obj fs) t h =
        let (ms, one, same) = >>=-eq-ok (canonical_fields lib fs) _ h in
        normal_fields-ArePlain fs ms one
    normal-IsPlain null t h = tt
    normal-IsPlain (bool b) t h = tt
    normal-IsPlain (int n) t h = tt
    normal-IsPlain (str s) t h = tt

    normal_items-ArePlain :
        (vs : Items) (ts : List String)
        → canonical_items lib vs ≡ ok ts
        → ArePlain (normal_items vs)
    normal_items-ArePlain nil ts h = tt
    normal_items-ArePlain (cons v vs) ts h =
        let (t, one, after) = >>=-eq-ok (canonical_json lib v) _ h in
        let (us, two, same) = >>=-eq-ok (canonical_items lib vs) _ after in
        (normal-IsPlain v t one, normal_items-ArePlain vs us two)

    normal_fields-ArePlain :
        (fs : Fields) (ms : List Member)
        → canonical_fields lib fs ≡ ok ms
        → FieldsArePlain (normal_fields fs)
    normal_fields-ArePlain end ms h = tt
    normal_fields-ArePlain (field k v fs) ms h =
        let (t, one, after) = >>=-eq-ok (canonical_json lib v) _ h in
        let (us, two, same) = >>=-eq-ok (canonical_fields lib fs) _ after in
        insert_field-ArePlain k (normal v) (normal_fields fs) (normal-IsPlain v t one)
          (normal_fields-ArePlain fs us two)

  module _ (literals : AreLiterals lib.dumps lib.show) where
    -- Documents of one canonical text are the same up to the order of members.
    canonical_json-injective :
        (v w : Json) (t : String)
        → canonical_json lib v ≡ ok t
        → canonical_json lib w ≡ ok t
        → normal v ≡ normal w
    canonical_json-injective v w t h k =
        let printed =
          append-nil (print lib.dumps lib.show (normal v))
          ∙ sym (canonical_json-printed lib v t h)
          ∙ canonical_json-printed lib w t k
          ∙ sym (append-nil (print lib.dumps lib.show (normal w))) in
        (print-prefix lib.dumps lib.show literals (normal v) (normal w) [] [] (normal-IsPlain v t h)
          (normal-IsPlain w t k) tt tt printed).0

append-cancel : (cs x y : List ℕ) → cs ++ x ≡ cs ++ y → x ≡ y
append-cancel [] x y h = h
append-cancel (c ∷ cs) x y h = append-cancel cs x y (cc)

-- Manifests with the same signed bytes have the same members but for the signature, in any order of
-- them, also within an object, if the documented behaviour of json.dumps of texts and str of integers
-- is that they give literals, and the encoding of a text determines it.
pub signed_bytes-injective :
    (lib : Library) (fs gs : Fields) (message : Bytes)
    → AreLiterals lib.dumps lib.show
    → ((s t : String) (b : Bytes) → lib.encode s ≡ ok b → lib.encode t ≡ ok b → s ≡ t)
    → signed_bytes lib fs ≡ ok message
    → signed_bytes lib gs ≡ ok message
    → (k : String) → (k == "sig") ≡ false
    → normal_member (get k fs) ≡ normal_member (get k gs)
unfolding signed_bytes normal
signed_bytes-injective lib fs gs message literals determined one two k other =
    let (s, text, after) = >>=-eq-ok (canonical_json lib (obj (without "sig" fs))) _ one in
    let (b, encoded, same) = >>=-eq-ok (lib.encode s) _ after in
    let (t, text', after') = >>=-eq-ok (canonical_json lib (obj (without "sig" gs))) _ two in
    let (c, encoded', same') = >>=-eq-ok (lib.encode t) _ after' in
    let bytes : b ≡ c =
      append-cancel (codes signature_domain) b c
        (ap (value_or []) same ∙ sym (ap (value_or []) same')) in
    let texts : s ≡ t = determined s t b encoded (encoded' ∙ ap ok (sym bytes)) in
    let documents =
      canonical_json-injective lib literals (obj (without "sig" fs)) (obj (without "sig" gs)) s text
        (text' ∙ ap ok (sym texts)) in
    sym (member fs) ∙ ap (λ v. get k (members_of v)) documents ∙ member gs
  where
    members_of : Json → Fields
    members_of (obj hs) = hs
    members_of v = end

    member : (hs : Fields) → get k (normal_fields (without "sig" hs)) ≡ normal_member (get k hs)
    member hs =
        get-normal_fields k (without "sig" hs) ∙ ap normal_member (get-without k "sig" hs other)
