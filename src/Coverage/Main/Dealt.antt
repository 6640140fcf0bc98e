-- ===== src/Coverage/Main/Dealt.antt =====
-- What the workers are dealt, and what the test of the indices says.
use yuelink_ci.Prelude.{
  ℕ, zero, suc, ◌+◌, ◌-◌, ◌≤◌, ◌<◌, ◌≡◌, refl, sym, ap, ◌∙◌, List, [], ◌∷◌, some, All, get_elem?,
  arith, ◌==◌, nat_eq, if◌then◌else◌, Bool-cases, inl, inr,
}
use yuelink_ci.Coverage.Main.{enumerate, stride, insert, sorted, range}

module _ {ℓ} {A : Type ℓ} where
  -- An element of `enumerate(xs, n)` is numbered by its place.
  abbrev pub IsPlaced : ℕ → List A → ℕ → A → Type ℓ
  IsPlaced n xs i x = (j : ℕ) × (i ≡ n + j) × (get_elem? xs j ≡ some x)

  All-IsPlaced-cons :
      (n : ℕ) (x : A) (xs : List A) (pairs : List (ℕ × A))
      → All (λ a. IsPlaced (suc n) xs a.0 a.1) pairs
      → All (λ a. IsPlaced n (x ∷ xs) a.0 a.1) pairs
  All-IsPlaced-cons n x xs [] h = tt
  All-IsPlaced-cons n x xs (a ∷ pairs) ((j, number, found), rest) =
      ((suc j, omega arith, found), All-IsPlaced-cons n x xs pairs rest)

  pub enumerate-IsPlaced : (n : ℕ) (xs : List A) → All (λ a. IsPlaced n xs a.0 a.1) (enumerate n xs)
  unfolding enumerate
  enumerate-IsPlaced n [] = tt
  enumerate-IsPlaced n (x ∷ xs) = (
    (0, omega arith, refl),
    All-IsPlaced-cons n x xs (enumerate (suc n) xs) (enumerate-IsPlaced (suc n) xs),
  )

  -- A slice has only elements of the list.
  pub All-stride {κ} :
      (P : A → Type κ) (skip step : ℕ) (xs : List A) → All P xs → All P (stride skip step xs)
  unfolding stride
  All-stride P skip step [] h = tt
  All-stride P zero step (x ∷ xs) h = (h.0, All-stride P (step - 1) step xs h.1)
  All-stride P (suc skip) step (x ∷ xs) h = All-stride P skip step xs h.1

-- How often a number stands in a list.
unfoldable pub tally : ℕ → List ℕ → ℕ
tally i [] = 0
tally i (n ∷ ns) = if i == n then 1 + tally i ns else tally i ns

tally-insert : (i n : ℕ) (ns : List ℕ) → tally i (insert n ns) ≡ tally i (n ∷ ns)
unfolding tally
tally-insert i n [] = refl
tally-insert i n (m ∷ ms) = ground (arith, tally-insert i n ms)

tally-sorted : (i : ℕ) (ns : List ℕ) → tally i (sorted ns) ≡ tally i ns
unfolding sorted tally
tally-sorted i [] = refl
tally-sorted i (n ∷ ns) = ground (arith, tally-insert i n (sorted ns), tally-sorted i ns)

tally-range_below : (i n k : ℕ) → i < n → tally i (range n k) ≡ 0
unfolding tally range
tally-range_below i n zero h = refl
tally-range_below i n (suc k) h = ground (arith, tally-range_below i (suc n) k (omega arith))

pub tally-range : (i n k : ℕ) → n ≤ i → i < n + k → tally i (range n k) ≡ 1
unfolding tally range
tally-range i n zero h below = absurd (omega arith)
tally-range i n (suc k) h below = elim (Bool-cases (i == n)) [
  | inl same ↦ ground (arith, tally-range_below i (suc n) k (ground arith))
  | inr other ↦ ground (arith, tally-range i (suc n) k (ground arith) (ground arith))
]

-- If the sorted numbers are a range from 0, each number below its end stands there once.
pub sorted-tally : (ns : List ℕ) (k i : ℕ) → sorted ns ≡ range 0 k → i < k → tally i ns ≡ 1
sorted-tally ns k i h below =
    sym (tally-sorted i ns) ∙ ap (tally i) h ∙ tally-range i 0 k (omega arith) (omega arith)
