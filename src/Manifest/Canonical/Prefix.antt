-- ===== src/Manifest/Canonical/Prefix.antt =====
-- No printed document is the beginning of another: a text has one ordered document.
use mathlib.Core.List.{append_assoc}
use yuelink_ci.Prelude.{
  ℕ, ◌≡◌, refl, sym, ap, ◌∙◌, String, true, false, ◌||◌, List, [], ◌∷◌, ◌++◌, codes, is_digit,
  arith, ◌==◌, nat_eq, if◌then◌else◌,
}
use yuelink_ci.Prelude.Int.{ℤ}
use yuelink_ci.Json.{
  Json, null, bool, int, float, str, arr, obj, Items, nil, cons, Fields, end, field,
}
use yuelink_ci.Manifest.Canonical.Printed.{more_pieces, pieces, print, prints, member_prints}
use yuelink_ci.Manifest.Canonical.Literals.{Ends, AreLiterals, IsPlain, ArePlain, FieldsArePlain}

-- The kind of a value, and that which a character begins.
abbrev kind : Json → ℕ
kind null = 0
kind (bool true) = 1
kind (bool false) = 2
kind (int n) = 3
kind (str s) = 4
kind (arr vs) = 5
kind (obj fs) = 6
kind (float x) = 8

kind_of : ℕ → ℕ
kind_of c =
    if c == b'n'
    then 0
    else if c == b't'
    then 1
    else if c == b'f'
    then 2
    else if c == b'-' || is_digit c
    then 3
    else if c == b'"'
    then 4
    else if c == b'['
    then 5
    else if c == b'{'
    then 6
    else 7

number_kind : (c : ℕ) → (c == b'-' || is_digit c) ≡ true → kind_of c ≡ 3
unfolding kind_of
number_kind c h = ground arith

Ends-more_pieces :
    (c : ℕ) (ps : List (List ℕ)) (x : List ℕ) → is_digit c ≡ false → Ends (more_pieces c ps ++ x)
unfolding more_pieces
Ends-more_pieces c [] x h = h
Ends-more_pieces c (p ∷ ps) x h = refl

regroup : (a b x c d y : List ℕ) → (a ++ b) ++ x ≡ (c ++ d) ++ y → a ++ (b ++ x) ≡ c ++ (d ++ y)
regroup a b x c d y h = sym (append_assoc a b x) ∙ h ∙ append_assoc c d y

-- The same, of a key and its value.
regroup_member :
    (k v m x j w n y : List ℕ)
    → ((k ++ (b':' ∷ v)) ++ m) ++ x ≡ ((j ++ (b':' ∷ w)) ++ n) ++ y
    → k ++ (b':' ∷ (v ++ (m ++ x))) ≡ j ++ (b':' ∷ (w ++ (n ++ y)))
regroup_member k v m x j w n y h = sym (grouped k v m x) ∙ h ∙ grouped j w n y
  where
    grouped : (k v m x : List ℕ) → ((k ++ (b':' ∷ v)) ++ m) ++ x ≡ k ++ (b':' ∷ (v ++ (m ++ x)))
    grouped k v m x = append_assoc (k ++ (b':' ∷ v)) m x ∙ append_assoc k (b':' ∷ v) (m ++ x)

module _ (dumps : String → String) (show : ℤ → String) (literals : AreLiterals dumps show) where
  starts :
      (v : Json)
      → IsPlain v
      → (c : ℕ) × (rest : List ℕ) × (print dumps show v ≡ c ∷ rest) × (kind_of c ≡ kind v)
  unfolding IsPlain print kind_of nat_eq
  starts null p = (b'n', codes "ull", refl, refl)
  starts (bool true) p = (b't', codes "rue", refl, refl)
  starts (bool false) p = (b'f', codes "alse", refl, refl)
  starts (int n) p =
      let (c, rest, shape, numeric) = literals.number_start n in
      (c, rest, shape, number_kind c numeric)
  starts (str s) p = let (rest, shape) = literals.text_start s in (b'"', rest, shape, refl)
  starts (arr vs) p = (b'[', pieces b']' (prints dumps show vs), refl, refl)
  starts (obj fs) p = (b'{', pieces b'}' (member_prints dumps show fs), refl, refl)
  starts (float x) p = absurd p

  same_kind :
      (v w : Json) (x y : List ℕ)
      → IsPlain v
      → IsPlain w
      → print dumps show v ++ x ≡ print dumps show w ++ y
      → kind v ≡ kind w
  same_kind v w x y p q h =
      let (c, rest, shape, k) = starts v p in
      let (d, rest', shape', k') = starts w q in let heads : c ≡ d = cc in cc

  not_closing :
      (c : ℕ) (v : Json) (x y : List ℕ)
      → IsPlain v
      → kind_of c ≡ 7
      → c ∷ x ≡ print dumps show v ++ y
      → ⊥
  not_closing c v x y p closing h =
      let (d, rest, shape, k) = starts v p in let heads : c ≡ d = cc in no_kind v p (cc)
    where
      no_kind : (v : Json) → IsPlain v → kind v ≡ 7 → ⊥
      no_kind null p e = omega (arith, e)
      no_kind (bool true) p e = omega (arith, e)
      no_kind (bool false) p e = omega (arith, e)
      no_kind (int n) p e = omega (arith, e)
      no_kind (str s) p e = omega (arith, e)
      no_kind (arr vs) p e = omega (arith, e)
      no_kind (obj fs) p e = omega (arith, e)
      no_kind (float s) p e = omega (arith, e)

  abbrev after_items : Items → List ℕ
  after_items vs = more_pieces b']' (prints dumps show vs)

  abbrev after_fields : Fields → List ℕ
  after_fields fs = more_pieces b'}' (member_prints dumps show fs)

  member_start :
      (k j : String) (v m x w n y : List ℕ)
      → ((codes (dumps k) ++ (b':' ∷ v)) ++ m) ++ x ≡ ((codes (dumps j) ++ (b':' ∷ w)) ++ n) ++ y
      → (k ≡ j) × (v ++ (m ++ x) ≡ w ++ (n ++ y))
  member_start k j v m x w n y h =
      let (same, rest) =
        literals.text_end k j (b':' ∷ (v ++ (m ++ x))) (b':' ∷ (w ++ (n ++ y)))
          (regroup_member (codes (dumps k)) v m x (codes (dumps j)) w n y h) in
      (same, cc)

  mutual
    unfolding print IsPlain pieces more_pieces kind_of nat_eq

    pub print-prefix :
        (v w : Json) (x y : List ℕ)
        → IsPlain v
        → IsPlain w
        → Ends x
        → Ends y
        → print dumps show v ++ x ≡ print dumps show w ++ y
        → (v ≡ w) × (x ≡ y)
    print-prefix null null x y p q e f h = (refl, cc)
    print-prefix (bool true) (bool true) x y p q e f h = (refl, cc)
    print-prefix (bool false) (bool false) x y p q e f h = (refl, cc)
    print-prefix (int m) (int n) x y p q e f h =
        let (same, rest) = literals.number_end m n x y e f h in (ap int same, rest)
    print-prefix (str s) (str t) x y p q e f h =
        let (same, rest) = literals.text_end s t x y h in (ap str same, rest)
    print-prefix (arr vs) (arr ws) x y p q e f h =
        let (same, rest) = prints-prefix vs ws x y p q (cc) in (ap arr same, rest)
    print-prefix (obj fs) (obj gs) x y p q e f h =
        let (same, rest) = member_prints-prefix fs gs x y p q (cc) in (ap obj same, rest)
    print-prefix (float s) w x y p q e f h = absurd p
    print-prefix v w x y p q e f h = absurd (ground (arith, same_kind v w x y p q h))

    prints-prefix :
        (vs ws : Items) (x y : List ℕ)
        → ArePlain vs
        → ArePlain ws
        → pieces b']' (prints dumps show vs) ++ x ≡ pieces b']' (prints dumps show ws) ++ y
        → (vs ≡ ws) × (x ≡ y)
    prints-prefix nil nil x y p q h = (refl, cc)
    prints-prefix nil (cons w ws) x y p q h =
        absurd (not_closing b']' w x _ q.0 refl (h ∙ append_assoc (print dumps show w) _ y))
    prints-prefix (cons v vs) nil x y p q h =
        absurd (not_closing b']' v y _ p.0 refl (sym h ∙ append_assoc (print dumps show v) _ x))
    prints-prefix (cons v vs) (cons w ws) x y p q h =
        let (same, rest) =
          print-prefix v w (after_items vs ++ x) (after_items ws ++ y) p.0 q.0
            (Ends-more_pieces b']' (prints dumps show vs) x refl)
            (Ends-more_pieces b']' (prints dumps show ws) y refl) (regroup _ _ x _ _ y h) in
        let (sames, rests) = more_prints-prefix vs ws x y p.1 q.1 rest in (cc, rests)

    more_prints-prefix :
        (vs ws : Items) (x y : List ℕ)
        → ArePlain vs
        → ArePlain ws
        → after_items vs ++ x ≡ after_items ws ++ y
        → (vs ≡ ws) × (x ≡ y)
    more_prints-prefix nil nil x y p q h = (refl, cc)
    more_prints-prefix nil (cons w ws) x y p q h = absurd (ground (arith, h))
    more_prints-prefix (cons v vs) nil x y p q h = absurd (ground (arith, h))
    more_prints-prefix (cons v vs) (cons w ws) x y p q h =
        let (same, rest) =
          print-prefix v w (after_items vs ++ x) (after_items ws ++ y) p.0 q.0
            (Ends-more_pieces b']' (prints dumps show vs) x refl)
            (Ends-more_pieces b']' (prints dumps show ws) y refl) (regroup _ _ x _ _ y (cc)) in
        let (sames, rests) = more_prints-prefix vs ws x y p.1 q.1 rest in (cc, rests)

    member_prints-prefix :
        (fs gs : Fields) (x y : List ℕ)
        → FieldsArePlain fs
        → FieldsArePlain gs
        → pieces b'}' (member_prints dumps show fs) ++ x
          ≡ pieces b'}' (member_prints dumps show gs) ++ y
        → (fs ≡ gs) × (x ≡ y)
    member_prints-prefix end end x y p q h = (refl, cc)
    member_prints-prefix end (field j w gs) x y p q h =
        let (rest, shape) = literals.text_start j in absurd (ground (arith, rw shape at h))
    member_prints-prefix (field k v fs) end x y p q h =
        let (rest, shape) = literals.text_start k in absurd (ground (arith, rw shape at h))
    member_prints-prefix (field k v fs) (field j w gs) x y p q h =
        let (keys, after) =
          member_start k j (print dumps show v) (after_fields fs) x (print dumps show w)
            (after_fields gs) y h in
        let (same, rest) =
          print-prefix v w (after_fields fs ++ x) (after_fields gs ++ y) p.0 q.0
            (Ends-more_pieces b'}' (member_prints dumps show fs) x refl)
            (Ends-more_pieces b'}' (member_prints dumps show gs) y refl) after in
        let (sames, rests) = more_members-prefix fs gs x y p.1 q.1 rest in (cc, rests)

    more_members-prefix :
        (fs gs : Fields) (x y : List ℕ)
        → FieldsArePlain fs
        → FieldsArePlain gs
        → after_fields fs ++ x ≡ after_fields gs ++ y
        → (fs ≡ gs) × (x ≡ y)
    more_members-prefix end end x y p q h = (refl, cc)
    more_members-prefix end (field j w gs) x y p q h = absurd (ground (arith, h))
    more_members-prefix (field k v fs) end x y p q h = absurd (ground (arith, h))
    more_members-prefix (field k v fs) (field j w gs) x y p q h =
        let (keys, after) =
          member_start k j (print dumps show v) (after_fields fs) x (print dumps show w)
            (after_fields gs) y (cc) in
        let (same, rest) =
          print-prefix v w (after_fields fs ++ x) (after_fields gs ++ y) p.0 q.0
            (Ends-more_pieces b'}' (member_prints dumps show fs) x refl)
            (Ends-more_pieces b'}' (member_prints dumps show gs) y refl) after in
        let (sames, rests) = more_members-prefix fs gs x y p.1 q.1 rest in (cc, rests)
