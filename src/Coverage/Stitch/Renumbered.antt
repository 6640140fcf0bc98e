-- ===== src/Coverage/Stitch/Renumbered.antt =====
-- What the new identities leave as it was.
use yuelink_ci.Prelude.{
  ◌≡◌, refl, ◌∙◌, inl, inr, String, false, Bool-cases, arith, ◌==◌, string_eq, if◌then◌else◌,
  contains,
}
use yuelink_ci.Prelude.Result.{ok, value_or, ◌>>=◌, >>=-eq-ok}
use yuelink_ci.Prelude.Int.{ℤ}
use yuelink_ci.Json.{Json, null, obj, Fields, end, field, get, item, keys, is_text}
use yuelink_ci.Coverage.Stitch.{as_dict, put, add_to, shift, shift_if, shift_in, renumber}

-- Another member stays as it was.
get-put_ne :
    (k j : String) (v : Json) (fs : Fields) → (j == k) ≡ false → get j (put k v fs) ≡ get j fs
unfolding get put
get-put_ne k j v end h = ground arith
get-put_ne k j v (field i w fs) h = ground (arith, get-put_ne k j v fs h)

-- The members that the counter reads.
abbrev pub IsKept : Fields → Fields → Type 0
IsKept fs gs = (get "type" gs ≡ get "type" fs) × (get "success" gs ≡ get "success" fs)

put-IsKept :
    (k : String) (v : Json) (fs : Fields)
    → ("type" == k) ≡ false
    → ("success" == k) ≡ false
    → IsKept fs (put k v fs)
put-IsKept k v fs a b = (get-put_ne k "type" v fs a, get-put_ne k "success" v fs b)

-- The members that are moved are others.
abbrev IsOther : String → Type 0
IsOther k = (("type" == k) ≡ false) × (("success" == k) ≡ false)

suite_id-IsOther : IsOther "suiteID"
unfolding string_eq
suite_id-IsOther = (refl, refl)

test_id-IsOther : IsOther "testID"
unfolding string_eq
test_id-IsOther = (refl, refl)

suite-IsOther : IsOther "suite"
unfolding string_eq
suite-IsOther = (refl, refl)

test-IsOther : IsOther "test"
unfolding string_eq
test-IsOther = (refl, refl)

module _ (float_add : String → ℤ → String) where
  shift-IsKept :
      (offset : ℤ) (k : String) (fs gs : Fields)
      → IsOther k
      → shift float_add offset k fs ≡ ok gs
      → IsKept fs gs
  unfolding shift
  shift-IsKept offset k fs gs a h =
      let v = value_or null (item k fs) in
      let moved = value_or null (add_to float_add offset v) in
      let same : gs ≡ put k moved fs = ground arith in rw same (put-IsKept k moved fs a.0 a.1)

  shift_if-IsKept :
      (offset : ℤ) (k : String) (fs gs : Fields)
      → IsOther k
      → shift_if float_add offset k fs ≡ ok gs
      → IsKept fs gs
  unfolding shift_if
  shift_if-IsKept offset k fs gs a h = elim (Bool-cases (contains (keys fs) k)) [
    | inl there ↦ shift-IsKept offset k fs gs a (rw there at h)
    | inr missing ↦ ground arith
  ]

  shift_in-IsKept :
      (offset : ℤ) (outer k : String) (fs gs : Fields)
      → IsOther outer
      → shift_in float_add offset outer k fs ≡ ok gs
      → IsKept fs gs
  unfolding shift_in
  shift_in-IsKept offset outer k fs gs a h =
      let inner = value_or end (as_dict (value_or null (item outer fs))) in
      let moved = value_or end (shift float_add offset k inner) in
      let same : gs ≡ put outer (obj moved) fs = ground arith in
      rw same (put-IsKept outer (obj moved) fs a.0 a.1)

  IsKept-trans : (fs gs hs : Fields) → IsKept fs gs → IsKept gs hs → IsKept fs hs
  IsKept-trans fs gs hs a b = (b.0 ∙ a.0, b.1 ∙ a.1)

  move-IsKept :
      (offset : ℤ) (two gs : Fields)
      → (if is_text "suite" (get "type" two)
          then shift_in float_add offset "suite" "id" two
          else if is_text "testStart" (get "type" two)
          then (shift_in float_add offset "test" "id" two
              >>= shift_in float_add offset "test" "suiteID")
          else ok two)
        ≡ ok gs
      → IsKept two gs
  move-IsKept offset two gs h = elim (Bool-cases (is_text "suite" (get "type" two))) [
    | inl suite ↦ shift_in-IsKept offset "suite" "id" two gs suite-IsOther (rw suite at h)
    | inr other ↦ elim (Bool-cases (is_text "testStart" (get "type" two))) [
      | inl start ↦
          let (mid, first, second) =
            >>=-eq-ok (shift_in float_add offset "test" "id" two)
              (shift_in float_add offset "test" "suiteID") (rw (other, start) at h) in
          IsKept-trans two mid gs (shift_in-IsKept offset "test" "id" two mid test-IsOther first)
            (shift_in-IsKept offset "test" "suiteID" mid gs test-IsOther second)
      | inr neither ↦ ground arith
    ]
  ]

  pub renumber-IsKept :
      (offset : ℤ) (fs gs : Fields) → renumber float_add offset fs ≡ ok gs → IsKept fs gs
  unfolding renumber
  renumber-IsKept offset fs gs h =
      let (one, first, rest) = >>=-eq-ok (shift_if float_add offset "suiteID" fs) _ h in
      let (two, second, last) = >>=-eq-ok (shift_if float_add offset "testID" one) _ rest in
      IsKept-trans fs one gs (shift_if-IsKept offset "suiteID" fs one suite_id-IsOther first) (
        IsKept-trans one two gs (shift_if-IsKept offset "testID" one two test_id-IsOther second)
          (move-IsKept offset two gs last))
