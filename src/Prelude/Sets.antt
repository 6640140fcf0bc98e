-- ===== src/Prelude/Sets.antt =====
-- Lists used as sets: Python's loops that test `x not in seen` and then add `x`.
use mathlib.Core.Path.{◌≡◌, refl}
use mathlib.Core.Bool.{true, false, ◌||◌}
use mathlib.Core.List.{List, [], ◌∷◌, ◌++◌}
use native.Mathlib.Omega.{arith}
use yuelink_ci.Prelude.Equality.{Eq, contains}

module _ {ℓ} {A : Type ℓ} ⦃e : Eq A⦄ where
  -- No value stands twice in the list.
  abbrev pub Distinct : List A → Type 0
  Distinct [] = Unit
  Distinct (x ∷ xs) = (contains xs x ≡ false) × Distinct xs

  -- Each element is new to a set that the elements before it were added to.
  abbrev pub AreNew : List A → List A → Type 0
  AreNew seen [] = Unit
  AreNew seen (x ∷ xs) = (contains seen x ≡ false) × AreNew (seen ++ x ∷ []) xs

  pub contains-append :
      (xs ys : List A) (x : A) → contains (xs ++ ys) x ≡ (contains xs x || contains ys x)
  contains-append [] ys x = refl
  contains-append (y ∷ xs) ys x = ground (arith, contains-append xs ys x)

  AreNew-contains :
      (x : A) (seen xs : List A) → contains seen x ≡ true → AreNew seen xs → contains xs x ≡ false
  AreNew-contains x seen [] h new = refl
  AreNew-contains x seen (y ∷ ys) h new =
      let rest =
        AreNew-contains x (seen ++ y ∷ []) ys (ground (arith, contains-append seen (y ∷ []) x))
          new.1 in
      ground (arith, rest)

  -- A loop that only adds what is new adds no value twice.
  pub AreNew-Distinct : (seen xs : List A) → AreNew seen xs → Distinct xs
  AreNew-Distinct seen [] new = tt
  AreNew-Distinct seen (x ∷ xs) new = (
    AreNew-contains x (seen ++ x ∷ []) xs (ground (arith, contains-append seen (x ∷ []) x)) new.1,
    AreNew-Distinct (seen ++ x ∷ []) xs new.1,
  )

  AreNew-cons :
      (x : A) (seen xs : List A) → contains xs x ≡ false → AreNew seen xs → AreNew (x ∷ seen) xs
  AreNew-cons x seen [] fresh h = tt
  AreNew-cons x seen (y ∷ ys) fresh h =
      (ground arith, AreNew-cons x (seen ++ y ∷ []) ys (ground arith) h.1)

  pub AreNew-of_Distinct : (xs : List A) → Distinct xs → AreNew [] xs
  AreNew-of_Distinct [] h = tt
  AreNew-of_Distinct (x ∷ xs) h = (refl, AreNew-cons x [] xs h.0 (AreNew-of_Distinct xs h.1))
