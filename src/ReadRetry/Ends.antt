-- ===== src/ReadRetry/Ends.antt =====
-- `validate` ends: it calls itself on a shorter command, or once on one with the format added.
use yuelink_ci.Prelude.{
  ℕ, zero, suc, ◌+◌, ◌≤◌, ◌≡◌, ◌≢◌, refl, ◌∙◌, String, true, false, inl, inr, arith,
}
use yuelink_ci.Prelude.{List, [], ◌∷◌, ◌++◌, none, length, length-append, take, drop}
use yuelink_ci.ReadRetry.{FileSystem, has_certificate_flags, Step, ended, again, step, validate}
use yuelink_ci.ReadRetry.Approved.{step-again}

length-cut :
    (argv : List String)
    → has_certificate_flags argv ≡ true
    → length (take 6 argv ++ drop 10 argv) + 4 ≡ length argv
unfolding has_certificate_flags
length-cut (a ∷ b ∷ c ∷ d ∷ e ∷ f ∷ g ∷ h ∷ i ∷ j ∷ argv) flags = omega arith
length-cut argv flags = absurd (ground arith)

flags-append :
    (argv more : List String)
    → 10 ≤ length argv
    → has_certificate_flags (argv ++ more) ≡ has_certificate_flags argv
unfolding has_certificate_flags
flags-append (a ∷ b ∷ c ∷ d ∷ e ∷ f ∷ g ∷ h ∷ i ∷ j ∷ argv) more long = refl
flags-append argv more long = absurd (omega arith)

module _ (files : FileSystem) where
  longer-ends :
      (fuel : ℕ) (argv : List String)
      → 1 ≤ fuel
      → length argv ≡ 17
      → has_certificate_flags argv ≡ false
      → validate files fuel argv ≢ none
  unfolding validate
  longer-ends zero argv some_fuel long plain = absurd (omega arith)
  longer-ends (suc fuel) argv some_fuel long plain = by_step (step files argv) refl
    where
      by_step : (s : Step) → step files argv ≡ s → validate files (suc fuel) argv ≢ none
      by_step (ended result) e h = cc
      by_step (again argv') e h = elim (step-again files argv argv' e) [
        | inl (flags, same) ↦ absurd (ground arith)
        | inr (other, short, same) ↦ absurd (omega arith)
      ]

  -- `validate` ends: as much fuel as two more than there are words is enough.
  pub validate-ne-none :
      (fuel : ℕ) (argv : List String) → length argv + 2 ≤ fuel → validate files fuel argv ≢ none
  unfolding validate
  validate-ne-none zero argv enough = absurd (omega arith)
  validate-ne-none (suc fuel) argv enough =
      by_step (step files argv) refl (λ argv' more. validate-ne-none fuel argv' more)
    where
      after :
          (argv' : List String)
          → step files argv ≡ again argv'
          → ((a : List String) → length a + 2 ≤ fuel → validate files fuel a ≢ none)
          → validate files fuel argv' ≢ none
      after argv' e ih = elim (step-again files argv argv' e) [
        | inl (flags, same) ↦ ih argv' (rw same (omega (arith, length-cut argv flags)))
        | inr (other, long, same) ↦ rw same (
            longer-ends fuel (argv ++ "--format" ∷ "json" ∷ []) (omega arith)
              (omega (arith, length-append argv ("--format" ∷ "json" ∷ [])))
              (flags-append argv ("--format" ∷ "json" ∷ []) (omega arith) ∙ other))
      ]

      by_step :
          (s : Step)
          → step files argv ≡ s
          → ((a : List String) → length a + 2 ≤ fuel → validate files fuel a ≢ none)
          → validate files (suc fuel) argv ≢ none
      by_step (ended result) e ih h = cc
      by_step (again argv') e ih h = after argv' e ih (ground arith)
