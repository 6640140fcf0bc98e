-- ===== src/Coverage/Cases/Grown.antt =====
-- Lists that a loop appends to, each element read from an event and new to the elements before it.
use mathlib.Core.List.{append_assoc, append-nil, map-append}
use yuelink_ci.Prelude.{
  ◌≡◌, refl, sym, ◌∙◌, ap, String, Bool, true, false, List, [], ◌∷◌, ◌++◌, map, if◌then◌else◌,
  Bool-cases, All, all, arith, inl, inr,
}
use yuelink_ci.Prelude.Result.{Result, ok}
use yuelink_ci.Json.{Fields}
use yuelink_ci.Coverage.Timeout.Tolerated.{is_kind}

module _ {ℓ} {A : Type ℓ} where
  -- No element is old when it is appended.
  abbrev pub AreFresh : (List A → A → Bool) → List A → List A → Type 0
  AreFresh is_old seen [] = Unit
  AreFresh is_old seen (x ∷ xs) = (is_old seen x ≡ false) × AreFresh is_old (seen ++ x ∷ []) xs

  -- Each element of a list is in the other.
  abbrev pub AreSame : (List A → A → Bool) → List A → List A → Type 0
  AreSame is_old xs ys = All (λ x. is_old ys x ≡ true) xs × All (λ y. is_old xs y ≡ true) ys

  pub all→All : (p : A → Bool) (xs : List A) → all p xs ≡ true → All (λ x. p x ≡ true) xs
  all→All p [] h = tt
  all→All p (x ∷ xs) h = (ground arith, all→All p xs (ground arith))

  AreFresh-append :
      (is_old : List A → A → Bool) (seen xs ys : List A)
      → AreFresh is_old seen xs
      → AreFresh is_old (seen ++ xs) ys
      → AreFresh is_old seen (xs ++ ys)
  AreFresh-append is_old seen [] ys h k = rw (append-nil seen) at k
  AreFresh-append is_old seen (x ∷ xs) ys h k = (
    h.0,
    AreFresh-append is_old (seen ++ x ∷ []) xs ys h.1 (rw (append_assoc seen (x ∷ []) xs) k),
  )

  -- What the events of one kind read, in their order.
  unfoldable pub reads : String → (Fields → Result A) → List Fields → List (Result A)
  reads kind f [] = []
  reads kind f (e ∷ es) = let rest = reads kind f es in if is_kind kind e then f e ∷ rest else rest

  pub reads-cons :
      (kind : String) (f : Fields → Result A) (e : Fields) (es : List Fields)
      → reads kind f (e ∷ es) ≡ reads kind f (e ∷ []) ++ reads kind f es
  unfolding reads
  reads-cons kind f e es = elim (Bool-cases (is_kind kind e)) [
    | inl h ↦ rw h refl
    | inr h ↦ rw h refl
  ]

  -- `after` is `before` with fresh elements behind it, which are what was read.
  pub record IsGrown (is_old : List A → A → Bool) (before after : List A) (read : List (Result A))
      : Type ℓ where
    pub added : List A
    pub appended : after ≡ before ++ added
    pub returned : read ≡ map ok added
    pub fresh : AreFresh is_old before added

  module _ (is_old : List A → A → Bool) where
    pub IsGrown-none :
        (xs : List A) {ys : List A} {read : List (Result A)}
        → ys ≡ xs
        → read ≡ []
        → IsGrown is_old xs ys read
    IsGrown-none xs same none = record {
      added = [];
      appended = same ∙ sym (append-nil xs);
      returned = none;
      fresh = tt;
    }

    pub IsGrown-one :
        (xs : List A) (x : A) {ys : List A} {read : List (Result A)}
        → ys ≡ xs ++ x ∷ []
        → read ≡ ok x ∷ []
        → is_old xs x ≡ false
        → IsGrown is_old xs ys read
    IsGrown-one xs x more one new = record {
      added = x ∷ [];
      appended = more;
      returned = one;
      fresh = (new, tt);
    }

    pub IsGrown-trans :
        {xs ys zs : List A} {r s : List (Result A)}
        → IsGrown is_old xs ys r
        → IsGrown is_old ys zs s
        → IsGrown is_old xs zs (r ++ s)
    IsGrown-trans {xs} {ys} {zs} {r} {s} a b = record {
      added = a.added ++ b.added;
      appended = b.appended ∙ ap (λ l. l ++ b.added) a.appended ∙ append_assoc xs a.added b.added;
      returned = rw (a.returned, b.returned) (sym (map-append ok a.added b.added));
      fresh = AreFresh-append is_old xs a.added b.added a.fresh (rw (← a.appended) b.fresh);
    }
