-- ===== src/Manifest/Canonical/Printed.antt =====
-- The code points that `_canonical_json` gives are those of the ordered document, printed in place.
use mathlib.Core.List.{append_assoc}
use text.Mathlib.TextLemmas.{cons-append, nil-append}
use yuelink_ci.Prelude.{
  ℕ, ◌≡◌, refl, sym, ap, subst, ◌∙◌, String, ◌<>◌, List, [], ◌∷◌, ◌++◌, map, codes, Bool-cases, inl,
  inr, if◌then◌else◌,
}
use yuelink_ci.Prelude.Result.{ok, value_or, >>=-eq-ok}
use yuelink_ci.Prelude.Int.{ℤ}
use yuelink_ci.Json.{
  Json, null, bool, int, float, str, arr, obj, Items, nil, cons, Fields, end, field,
}
use yuelink_ci.Manifest.{Library}
use yuelink_ci.Manifest.Canonical.{
  Member, codes_leb, insert_member, sort_members, join, texts, canonical_json, canonical_items,
  canonical_fields,
}
use yuelink_ci.Manifest.Canonical.Normal.{insert_field, normal, normal_items, normal_fields}

-- Pieces with commas between them, and the closing character.
unfoldable pub more_pieces : ℕ → List (List ℕ) → List ℕ
more_pieces c [] = c ∷ []
more_pieces c (p ∷ ps) = b',' ∷ (p ++ more_pieces c ps)

unfoldable pub pieces : ℕ → List (List ℕ) → List ℕ
unfolding more_pieces
pieces c [] = c ∷ []
pieces c (p ∷ ps) = p ++ more_pieces c ps

pub codes-append : (s t : String) → codes (s <> t) ≡ codes s ++ codes t
codes-append String.[] t = ap codes (nil-append t)
codes-append (String.◌∷◌ c s) t =
    ap codes (cons-append c s t) ∙ ap (λ cs. codes (String.◌∷◌ c "") ++ cs) (codes-append s t)

join-more_pieces :
    (c : ℕ) (t : String) (ts : List String)
    → codes (join (t ∷ ts)) ++ (c ∷ []) ≡ codes t ++ more_pieces c (map codes ts)
unfolding join more_pieces
join-more_pieces c t [] = refl
join-more_pieces c t (u ∷ ts) =
    ap (λ cs. cs ++ (c ∷ []))
      (codes-append t ("," <> join (u ∷ ts))
        ∙ ap (λ cs. codes t ++ cs) (codes-append "," (join (u ∷ ts))))
    ∙ append_assoc (codes t) (codes "," ++ codes (join (u ∷ ts))) (c ∷ [])
    ∙ ap (λ cs. codes t ++ (b',' ∷ cs)) (join-more_pieces c u ts)

join-pieces : (c : ℕ) (ts : List String) → codes (join ts) ++ (c ∷ []) ≡ pieces c (map codes ts)
unfolding join pieces
join-pieces c [] = refl
join-pieces c (t ∷ ts) = join-more_pieces c t ts

-- A text between brackets.
codes-bracketed :
    (o c : String) (a z : ℕ) (ts : List String)
    → codes o ≡ a ∷ []
    → codes c ≡ z ∷ []
    → codes (o <> (join ts <> c)) ≡ a ∷ pieces z (map codes ts)
codes-bracketed o c a z ts first last =
    codes-append o (join ts <> c)
    ∙ ap (λ cs. cs ++ codes (join ts <> c)) first
    ∙ ap (λ cs. a ∷ cs)
        (codes-append (join ts) c ∙ ap (λ cs. codes (join ts) ++ cs) last ∙ join-pieces z ts)

module _ (dumps : String → String) (show : ℤ → String) where
  unfoldable mutual
    pub print : Json → List ℕ
    print null = codes "null"
    print (bool b) = codes (if b then "true" else "false")
    print (int n) = codes (show n)
    print (str s) = codes (dumps s)
    print (arr vs) = b'[' ∷ pieces b']' (prints vs)
    print (obj fs) = b'{' ∷ pieces b'}' (member_prints fs)
    print (float x) = []

    pub prints : Items → List (List ℕ)
    prints nil = []
    prints (cons v vs) = print v ∷ prints vs

    pub member_prints : Fields → List (List ℕ)
    member_prints end = []
    member_prints (field k v fs) = (codes (dumps k) ++ (b':' ∷ print v)) ∷ member_prints fs

  -- Members with their texts.
  abbrev AreMembers : List Member → Fields → Type 0
  AreMembers [] end = Unit
  AreMembers ((j, t) ∷ ms) (field k v fs) =
      (j ≡ k) × (codes t ≡ codes (dumps k) ++ (b':' ∷ print v)) × AreMembers ms fs
  AreMembers ms fs = ⊥

  insert-AreMembers :
      (k t : String) (v : Json) (ms : List Member) (fs : Fields)
      → codes t ≡ codes (dumps k) ++ (b':' ∷ print v)
      → AreMembers ms fs
      → AreMembers (insert_member (k, t) ms) (insert_field k v fs)
  unfolding insert_member insert_field
  insert-AreMembers k t v [] end h a = (refl, h, tt)
  insert-AreMembers k t v [] (field j w fs) h a = absurd a
  insert-AreMembers k t v (m ∷ ms) end h a = absurd a
  insert-AreMembers k t v ((i, u) ∷ ms) (field j w fs) h (same, one, rest) =
      let order : codes_leb (codes k) (codes i) ≡ codes_leb (codes k) (codes j) =
        ap (λ s. codes_leb (codes k) (codes s)) same in
      elim (Bool-cases (codes_leb (codes k) (codes j))) [
        | inl before ↦ rw (order, before) (refl, h, (same, one, rest))
        | inr behind ↦ rw (order, behind) (same, one, insert-AreMembers k t v ms fs h rest)
      ]

  AreMembers-map :
      (ms : List Member) (fs : Fields) → AreMembers ms fs → map codes (texts ms) ≡ member_prints fs
  unfolding print
  AreMembers-map [] end a = refl
  AreMembers-map [] (field j w fs) a = absurd a
  AreMembers-map (m ∷ ms) end a = absurd a
  AreMembers-map ((j, t) ∷ ms) (field k v fs) (same, one, rest) =
      cc (one, AreMembers-map ms fs rest)

module _ (lib : Library) where
  mutual
    unfolding canonical_json print normal sort_members

    canonical_json-print :
        (v : Json) (t : String)
        → canonical_json lib v ≡ ok t
        → codes t ≡ print lib.dumps lib.show (normal v)
    canonical_json-print null t h = ap codes (sym (ap (value_or t) h))
    canonical_json-print (bool b) t h = ap codes (sym (ap (value_or t) h))
    canonical_json-print (int n) t h = ap codes (sym (ap (value_or t) h))
    canonical_json-print (str s) t h = ap codes (sym (ap (value_or t) h))
    canonical_json-print (float x) t h = cc
    canonical_json-print (arr vs) t h =
        let (ts, one, same) = >>=-eq-ok (canonical_items lib vs) _ h in
        ap codes (sym (ap (value_or t) same))
        ∙ codes-bracketed "[" "]" b'[' b']' ts refl refl
        ∙ ap (λ ps. b'[' ∷ pieces b']' ps) (canonical_items-prints vs ts one)
    canonical_json-print (obj fs) t h =
        let (ms, one, same) = >>=-eq-ok (canonical_fields lib fs) _ h in
        ap codes (sym (ap (value_or t) same))
        ∙ codes-bracketed "{" "}" b'{' b'}' (texts (sort_members ms)) refl refl
        ∙ ap (λ ps. b'{' ∷ pieces b'}' ps)
            (AreMembers-map lib.dumps lib.show (sort_members ms) (normal_fields fs)
              (canonical_fields-AreMembers fs ms one))

    canonical_items-prints :
        (vs : Items) (ts : List String)
        → canonical_items lib vs ≡ ok ts
        → map codes ts ≡ prints lib.dumps lib.show (normal_items vs)
    canonical_items-prints nil ts h = ap (map codes) (sym (ap (value_or ts) h))
    canonical_items-prints (cons v vs) ts h =
        let (t, one, after) = >>=-eq-ok (canonical_json lib v) _ h in
        let (us, two, same) = >>=-eq-ok (canonical_items lib vs) _ after in
        ap (map codes) (sym (ap (value_or ts) same))
        ∙ cc (canonical_json-print v t one, canonical_items-prints vs us two)

    canonical_fields-AreMembers :
        (fs : Fields) (ms : List Member)
        → canonical_fields lib fs ≡ ok ms
        → AreMembers lib.dumps lib.show (sort_members ms) (normal_fields fs)
    canonical_fields-AreMembers end ms h =
        subst (λ l. AreMembers lib.dumps lib.show (sort_members l) end) (ap (value_or ms) h) tt
    canonical_fields-AreMembers (field k v fs) ms h =
        let (t, one, after) = >>=-eq-ok (canonical_json lib v) _ h in
        let (us, two, same) = >>=-eq-ok (canonical_fields lib fs) _ after in
        let printed =
          codes-append (lib.dumps k) (":" <> t)
          ∙ ap (λ cs. codes (lib.dumps k) ++ cs)
              (codes-append ":" t ∙ ap (λ cs. b':' ∷ cs) (canonical_json-print v t one)) in
        subst (λ l. AreMembers lib.dumps lib.show (sort_members l) (normal_fields (field k v fs)))
          (ap (value_or ms) same)
          (insert-AreMembers lib.dumps lib.show k (lib.dumps k <> (":" <> t)) (normal v)
            (sort_members us) (normal_fields fs) printed (canonical_fields-AreMembers fs us two))

-- The canonical text of a document is that of the ordered document.
pub canonical_json-printed :
    (lib : Library) (v : Json) (t : String)
    → canonical_json lib v ≡ ok t
    → codes t ≡ print lib.dumps lib.show (normal v)
canonical_json-printed lib = canonical_json-print lib
