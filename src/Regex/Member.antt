-- ===== src/Regex/Member.antt =====
-- Membership in the list of the ways to match.
use yuelink_ci.Prelude.{◌≡◌, refl, subst, ◌⊎◌, inl, inr, List, [], ◌∷◌, ◌++◌}
use yuelink_ci.Regex.{flat_map}

module _ {A : Type 0} where
  -- A value is in a list.
  abbrev pub In : A → List A → Type 0
  In a [] = ⊥
  In a (x ∷ xs) = (a ≡ x) ⊎ In a xs

  pub In-append_left : (a : A) (xs ys : List A) → In a xs → In a (xs ++ ys)
  In-append_left a [] ys h = elim h [ ]
  In-append_left a (x ∷ xs) ys (inl e) = inl e
  In-append_left a (x ∷ xs) ys (inr h) = inr (In-append_left a xs ys h)

  pub In-append_right : (a : A) (xs ys : List A) → In a ys → In a (xs ++ ys)
  In-append_right a [] ys h = h
  In-append_right a (x ∷ xs) ys h = inr (In-append_right a xs ys h)

  pub In-append_cases : (a : A) (xs ys : List A) → In a (xs ++ ys) → In a xs ⊎ In a ys
  In-append_cases a [] ys h = inr h
  In-append_cases a (x ∷ xs) ys (inl e) = inl (inl e)
  In-append_cases a (x ∷ xs) ys (inr h) = elim (In-append_cases a xs ys h) [
    | inl k ↦ inl (inr k)
    | inr k ↦ inr k
  ]

module _ {A B : Type 0} (f : A → List B) where
  pub In-flat_map : (a : A) (b : B) (xs : List A) → In a xs → In b (f a) → In b (flat_map f xs)
  unfolding flat_map
  In-flat_map a b [] h k = elim h [ ]
  In-flat_map a b (x ∷ xs) (inl e) k =
      In-append_left b (f x) (flat_map f xs) (subst (λ y. In b (f y)) e k)
  In-flat_map a b (x ∷ xs) (inr h) k =
      In-append_right b (f x) (flat_map f xs) (In-flat_map a b xs h k)

  pub flat_map-In : (b : B) (xs : List A) → In b (flat_map f xs) → (a : A) × In a xs × In b (f a)
  unfolding flat_map
  flat_map-In b [] h = elim h [ ]
  flat_map-In b (x ∷ xs) h = elim (In-append_cases b (f x) (flat_map f xs) h) [
    | inl k ↦ (x, inl refl, k)
    | inr k ↦ let (a, i, j) = flat_map-In b xs k in (a, inr i, j)
  ]
