-- ===== src/Coverage/Main/Shares.antt =====
-- The slices that the workers get share the groups out.
use yuelink_ci.Prelude.{
  ℕ, zero, suc, ◌+◌, ◌-◌, ◌≤◌, ◌<◌, ◌≡◌, refl, ap, ◌∙◌, List, [], ◌∷◌, map, length, arith, ◌==◌,
  nat_eq, if◌then◌else◌,
}
use yuelink_ci.Coverage.Main.{enumerate, stride, range}
use yuelink_ci.Coverage.Main.Dealt.{tally, tally-range}

-- The sum of `f` over the numbers below a bound.
unfoldable sum_below : (ℕ → ℕ) → ℕ → ℕ
sum_below f zero = 0
sum_below f (suc n) = sum_below f n + f n

sum_below-shift :
    (f g : ℕ → ℕ) (n : ℕ) → ((w : ℕ) → f (suc w) ≡ g w) → sum_below f (suc n) ≡ f 0 + sum_below g n
unfolding sum_below
sum_below-shift f g zero h = omega arith
sum_below-shift f g (suc n) h = omega (arith, sum_below-shift f g n h, h n)

sum_below-zero : (n : ℕ) → sum_below (λ w. 0) n ≡ 0
unfolding sum_below
sum_below-zero zero = refl
sum_below-zero (suc n) = omega (arith, sum_below-zero n)

abbrev share_of : ℕ → ℕ → ℕ → ℕ
share_of i n rest = if i == n then 1 + rest else rest

module _ {ℓ} {A : Type ℓ} where
  -- How often a number stands among the indices of a slice.
  abbrev share : ℕ → ℕ → List (ℕ × A) → ℕ → ℕ
  share i step pairs w = tally i (map (λ a. a.0) (stride w step pairs))

  sum_below-share :
      (i k : ℕ) (pairs : List (ℕ × A))
      → sum_below (share i (suc k) pairs) (suc k) ≡ tally i (map (λ a. a.0) pairs)
  unfolding tally stride sum_below
  sum_below-share i k [] = sum_below-zero (suc k)
  sum_below-share i k ((n, x) ∷ pairs) =
      let shifted =
        sum_below-shift (share i (suc k) ((n, x) ∷ pairs)) (share i (suc k) pairs) k (λ w. refl) in
      let last : suc k - 1 ≡ k = omega arith in
      let first = ap (λ skip. share_of i n (share i (suc k) pairs skip)) last in
      let rest = sum_below-share i k pairs in ground (arith, shifted, first, rest)

  enumerate-range : (n : ℕ) (xs : List A) → map (λ a. a.0) (enumerate n xs) ≡ range n (length xs)
  unfolding enumerate range
  enumerate-range n [] = refl
  enumerate-range n (x ∷ xs) = ap (λ ns. n ∷ ns) (enumerate-range (suc n) xs)

  -- Each group is dealt to exactly one worker, by one position of its slice, whatever the number of
  -- workers.
  stride-once :
      (i step : ℕ) (groups : List A)
      → 1 ≤ step
      → i < length groups
      → sum_below (share i step (enumerate 0 groups)) step ≡ 1
  stride-once i zero groups some_worker below = absurd (omega arith)
  stride-once i (suc k) groups some_worker below =
      sum_below-share i k (enumerate 0 groups)
      ∙ ap (tally i) (enumerate-range 0 groups)
      ∙ tally-range i 0 (length groups) (omega arith) (omega arith)
