-- ===== src/Regex/Matches.antt =====
-- The words of a pattern, and that the matcher finds exactly them.
use mathlib.Core.List.{append_assoc, append-nil}
use yuelink_ci.Prelude.{
  ℕ, ◌≡◌, refl, sym, ap, subst, ◌∙◌, ◌↔◌, ◌⊎◌, inl, inr, Bool, true, List, [], ◌∷◌, ◌++◌, map, All,
  codes, strip_prefix, any, arith, Bool-cases, nat_eq, ◌==◌,
}
use yuelink_ci.Regex.{
  Regex, text, folded, one, many, empty, followed_by, either, fold_case, rest_of, rests_many,
  rests_one, strip_folded, rests, is_end, is_some_rest, full_match, search_match,
}
use yuelink_ci.Regex.Member.{
  In, In-append_left, In-append_right, In-append_cases, In-flat_map, flat_map-In,
}

-- The language of a pattern.
abbrev pub Denotes : Regex → List ℕ → Type 0
Denotes (text t) w = w ≡ codes t
Denotes (folded t) w = map fold_case w ≡ codes t
Denotes (one class) w = (c : ℕ) × (w ≡ c ∷ []) × (class c ≡ true)
Denotes (many class) w = All (λ c. class c ≡ true) w
Denotes empty w = w ≡ []
Denotes (followed_by p q) w = (u v : List ℕ) × (w ≡ u ++ v) × Denotes p u × Denotes q v
Denotes (either p q) w = Denotes p w ⊎ Denotes q w

-- What a match of a prefix leaves.
IsLeft : Regex → List ℕ → List ℕ → Type 0
IsLeft p s r = (w : List ℕ) × (s ≡ w ++ r) × Denotes p w

strip_prefix-eq : (t s r : List ℕ) → In r (rest_of (strip_prefix t s)) → s ≡ t ++ r
unfolding strip_prefix
strip_prefix-eq [] s r (inl e) = sym e
strip_prefix-eq [] s r (inr h) = elim h [ ]
strip_prefix-eq (p ∷ t) [] r h = elim h [ ]
strip_prefix-eq (p ∷ t) (c ∷ s) r h = ground (arith, strip_prefix-eq t s r)

strip_prefix-append : (t r : List ℕ) → In r (rest_of (strip_prefix t (t ++ r)))
unfolding strip_prefix
strip_prefix-append [] r = inl refl
strip_prefix-append (p ∷ t) r = ground (arith, strip_prefix-append t r)

strip_folded-eq :
    (t s r : List ℕ)
    → In r (rest_of (strip_folded t s))
    → (w : List ℕ) × (s ≡ w ++ r) × (map fold_case w ≡ t)
unfolding strip_folded
strip_folded-eq [] s r (inl e) = ([], sym e, refl)
strip_folded-eq [] s r (inr e) = absurd e
strip_folded-eq (p ∷ t) [] r h = absurd h
strip_folded-eq (p ∷ t) (c ∷ s) r h = elim (Bool-cases (p == fold_case c)) [
  | inl same ↦
      let (w, split, folds) = strip_folded-eq t s r (rw same at h) in
      (c ∷ w, ap (λ l. c ∷ l) split, ground arith)
  | inr differ ↦ absurd (rw differ at h)
]

strip_folded-append : (w r : List ℕ) → In r (rest_of (strip_folded (map fold_case w) (w ++ r)))
unfolding strip_folded
strip_folded-append [] r = inl refl
strip_folded-append (c ∷ w) r = ground (arith, strip_folded-append w r)

rests_many-eq :
    (class : ℕ → Bool) (s r : List ℕ)
    → In r (rests_many class s)
    → (w : List ℕ) × (s ≡ w ++ r) × All (λ c. class c ≡ true) w
unfolding rests_many
rests_many-eq class [] r (inl e) = ([], sym e, tt)
rests_many-eq class [] r (inr e) = absurd e
rests_many-eq class (c ∷ s) r (inl e) = ([], sym e, tt)
rests_many-eq class (c ∷ s) r (inr h) = elim (Bool-cases (class c)) [
  | inl good ↦
      let (w, split, all) = rests_many-eq class s r (rw good at h) in
      (c ∷ w, ap (λ l. c ∷ l) split, (good, all))
  | inr bad ↦ absurd (rw bad at h)
]

rests_many_self : (class : ℕ → Bool) (r : List ℕ) → In r (rests_many class r)
unfolding rests_many
rests_many_self class [] = inl refl
rests_many_self class (c ∷ r) = inl refl

rests_many-append :
    (class : ℕ → Bool) (w r : List ℕ)
    → All (λ c. class c ≡ true) w
    → In r (rests_many class (w ++ r))
unfolding rests_many
rests_many-append class [] r all = rests_many_self class r
rests_many-append class (c ∷ w) r all = rw all.0 (inr (rests_many-append class w r all.1))

-- What the matcher leaves is behind a word of the pattern.
rests-IsLeft : (p : Regex) (s r : List ℕ) → In r (rests p s) → IsLeft p s r
unfolding rests rests_one IsLeft
rests-IsLeft (text t) s r h = (codes t, strip_prefix-eq (codes t) s r h, refl)
rests-IsLeft (folded t) s r h = strip_folded-eq (codes t) s r h
rests-IsLeft (one class) (c ∷ s) r h = elim (Bool-cases (class c)) [
  | inl good ↦ (c ∷ [], ground arith, (c, refl, good))
  | inr bad ↦ absurd (rw bad at h)
]
rests-IsLeft (one class) [] r h = absurd h
rests-IsLeft (many class) s r h = rests_many-eq class s r h
rests-IsLeft empty s r (inl e) = ([], sym e, refl)
rests-IsLeft empty s r (inr e) = absurd e
rests-IsLeft (followed_by p q) s r h =
    let (mid, first, second) = flat_map-In (rests q) r (rests p s) h in
    let (u, su, pu) = rests-IsLeft p s mid first in
    let (v, sv, qv) = rests-IsLeft q mid r second in
    (u ++ v, su ∙ ap (λ l. u ++ l) sv ∙ sym (append_assoc u v r), (u, v, refl, pu, qv))
rests-IsLeft (either p q) s r h = elim (In-append_cases r (rests p s) (rests q s) h) [
  | inl k ↦ let (w, e, d) = rests-IsLeft p s r k in (w, e, inl d)
  | inr k ↦ let (w, e, d) = rests-IsLeft q s r k in (w, e, inr d)
]

-- Behind a word of the pattern the matcher leaves the rest.
rests-append : (p : Regex) (w r : List ℕ) → Denotes p w → In r (rests p (w ++ r))
unfolding rests rests_one
rests-append (text t) w r d = rw d (strip_prefix-append (codes t) r)
rests-append (folded t) w r d = rw (← d) (strip_folded-append w r)
rests-append (one class) w r (c, e, good) = rw e (rw good (inl refl))
rests-append (many class) w r d = rests_many-append class w r d
rests-append empty w r d = rw d (inl refl)
rests-append (followed_by p q) w r (u, v, e, du, dv) =
    rw (e, append_assoc u v r)
      (In-flat_map (rests q) (v ++ r) r (rests p (u ++ (v ++ r))) (rests-append p u (v ++ r) du)
        (rests-append q v r dv))
rests-append (either p q) w r (inl d) =
    In-append_left r (rests p (w ++ r)) (rests q (w ++ r)) (rests-append p w r d)
rests-append (either p q) w r (inr d) =
    In-append_right r (rests p (w ++ r)) (rests q (w ++ r)) (rests-append q w r d)

any_end : (rs : List (List ℕ)) → any is_end rs ≡ true → In [] rs
any_end ([] ∷ rs) h = inl refl
any_end ((c ∷ r) ∷ rs) h = inr (any_end rs h)
any_end [] h = cc

any_end-In : (rs : List (List ℕ)) → In [] rs → any is_end rs ≡ true
any_end-In [] h = elim h [ ]
any_end-In ([] ∷ rs) h = refl
any_end-In ((c ∷ r) ∷ rs) (inl e) = cc
any_end-In ((c ∷ r) ∷ rs) (inr h) = any_end-In rs h

-- `re.fullmatch` succeeds exactly on the words of the pattern.
pub full_match_iff : (p : Regex) (s : List ℕ) → (full_match p s ≡ true) ↔ Denotes p s
unfolding full_match IsLeft
full_match_iff p s = (
  λ h.
      let (w, e, d) = rests-IsLeft p s [] (any_end (rests p s) h) in
      subst (Denotes p) (sym (e ∙ append-nil w)) d,
  λ d.
      any_end-In (rests p s)
        (subst (λ t. In [] (rests p t)) (append-nil s) (rests-append p s [] d)),
)

-- A word of the pattern stands in the text.
pub Occurs : Regex → List ℕ → Type 0
Occurs p s = (u w v : List ℕ) × (s ≡ u ++ (w ++ v)) × Denotes p w

first_rest : (rs : List (List ℕ)) → is_some_rest rs ≡ true → (r : List ℕ) × In r rs
first_rest [] h = cc
first_rest (r ∷ rs) h = (r, inl refl)

some_rest : (rs : List (List ℕ)) (r : List ℕ) → In r rs → is_some_rest rs ≡ true
some_rest [] r h = elim h [ ]
some_rest (r' ∷ rs) r h = refl

search_here : (p : Regex) (s : List ℕ) → is_some_rest (rests p s) ≡ true → Occurs p s
unfolding Occurs IsLeft
search_here p s h =
    let (r, i) = first_rest (rests p s) h in
    let (w, e, d) = rests-IsLeft p s r i in ([], w, r, e, d)

search-Occurs : (p : Regex) (s : List ℕ) → search_match p s ≡ true → Occurs p s
unfolding search_match Occurs
search-Occurs p [] h = search_here p [] h
search-Occurs p (c ∷ s) h = elim (Bool-cases (is_some_rest (rests p (c ∷ s)))) [
  | inl here ↦ search_here p (c ∷ s) here
  | inr later ↦
      let (u, w, v, e, d) = search-Occurs p s (rw later at h) in (c ∷ u, w, v, ap (λ l. c ∷ l) e, d)
]

Occurs-search : (p : Regex) (u w v : List ℕ) → Denotes p w → search_match p (u ++ (w ++ v)) ≡ true
unfolding search_match
Occurs-search p [] w v d = at_start (w ++ v) (some_rest (rests p (w ++ v)) v (rests-append p w v d))
  where
    at_start : (s : List ℕ) → is_some_rest (rests p s) ≡ true → search_match p s ≡ true
    at_start [] h = h
    at_start (c ∷ s) h = rw h refl
Occurs-search p (c ∷ u) w v d = ground (arith, Occurs-search p u w v d)

-- `re.search` succeeds exactly where a word of the pattern stands in the text.
pub search_match_iff : (p : Regex) (s : List ℕ) → (search_match p s ≡ true) ↔ Occurs p s
unfolding Occurs
search_match_iff p s =
    (search-Occurs p s, λ o. let (u, w, v, e, d) = o in rw e (Occurs-search p u w v d))
