-- ===== src/Coverage/Split/Leaves.antt =====
-- The split of a group ends, and its leaves are the tests of the group in order.
use mathlib.Core.List.{append_assoc, append-nil}
use yuelink_ci.Prelude.{
  ℕ, zero, suc, ◌/◌, ◌-◌, ◌≤◌, ◌≡◌, ◌≢◌, refl, ap, sym, String, ◌<>◌, true, inl, inr,
}
use yuelink_ci.Prelude.{List, [], ◌∷◌, ◌++◌, none, some, All, All-append, length, take, drop}
use yuelink_ci.Prelude.{◌==◌, nat_eq, arith, Bool-cases, ==→eq}
use yuelink_ci.Prelude.Result.{Result, ok, err}
use yuelink_ci.Prelude.Int.{pos, int_eq}
use yuelink_ci.Coverage.Timeout.{Classification}
use yuelink_ci.Coverage.Split.{
  Attempt, Leaf, Outcome, both, accept, on_fault, on_timeout, on_attempt, run_half, split,
}

module _ {ℓ} {A : Type ℓ} where
  append-take-drop : (n : ℕ) (xs : List A) → take n xs ++ drop n xs ≡ xs
  append-take-drop zero xs = refl
  append-take-drop (suc n) [] = refl
  append-take-drop (suc n) (x ∷ xs) = ap (λ ys. x ∷ ys) (append-take-drop n xs)

  length-take : (n : ℕ) (xs : List A) → n ≤ length xs → length (take n xs) ≡ n
  length-take zero xs h = refl
  length-take (suc n) [] h = absurd (omega arith)
  length-take (suc n) (x ∷ xs) h = omega (arith, length-take n xs)

  length-drop : (n : ℕ) (xs : List A) → length (drop n xs) ≡ length xs - n
  length-drop zero xs = omega arith
  length-drop (suc n) [] = omega arith
  length-drop (suc n) (x ∷ xs) = omega (arith, length-drop n xs)

both-ne-none : (a b : Outcome) → a ≢ none → b ≢ none → both a b ≢ none
unfolding both
both-ne-none none b h k e = h refl
both-ne-none (some (err x)) b h k e = cc
both-ne-none (some (ok xs)) none h k e = k refl
both-ne-none (some (ok xs)) (some (err x)) h k e = cc
both-ne-none (some (ok xs)) (some (ok ys)) h k e = cc

module _ (invoke : String → List String → Result Attempt)
    (classify : List String → Result Classification)
    (cases : List String → List String → Result (Unit {0})) where
  -- A half that is not empty needs no fuel of its own unless it has two tests or more.
  run_half-ne-none :
      (again : List String → String → Outcome) (half : List String) (path : String)
      → 1 ≤ length half
      → (2 ≤ length half → again half path ≢ none)
      → run_half invoke classify cases again half path ≢ none
  unfolding run_half on_attempt on_timeout on_fault
  run_half-ne-none again half path h more = λ e. ground (arith, more)

  -- With as much fuel as there are tests the split of two tests or more ends, with leaves or with
  -- an exception.
  pub split-ne-none :
      (fuel : ℕ) (files : List String) (path : String)
      → 2 ≤ length files
      → length files ≤ fuel
      → split invoke classify cases fuel files path ≢ none
  unfolding split
  split-ne-none zero files path two enough = absurd (omega arith)
  split-ne-none (suc fuel) files path two enough =
      let mid = length files / 2 in
      let first = length-take mid files (omega arith) in
      let second = length-drop mid files in
      both-ne-none _ _
        (run_half-ne-none (split invoke classify cases fuel) (take mid files) (path <> "0")
          (omega arith)
          (λ two'. split-ne-none fuel (take mid files) (path <> "0") two' (omega arith)))
        (run_half-ne-none (split invoke classify cases fuel) (drop mid files) (path <> "1")
          (omega arith)
          (λ two'. split-ne-none fuel (drop mid files) (path <> "1") two' (omega arith)))

-- The tests of the leaves, in order.
unfoldable pub tests_of : List Leaf → List String
tests_of [] = []
tests_of (leaf ∷ leaves) = leaf.files ++ tests_of leaves

tests_of-append : (xs ys : List Leaf) → tests_of (xs ++ ys) ≡ tests_of xs ++ tests_of ys
unfolding tests_of
tests_of-append [] ys = refl
tests_of-append (x ∷ xs) ys =
    rw (tests_of-append xs ys) (sym (append_assoc x.files (tests_of xs) (tests_of ys)))

both-eq-ok :
    (a b : Outcome) {zs : List Leaf}
    → both a b ≡ some (ok zs)
    → (xs ys : List Leaf) × (a ≡ some (ok xs)) × (b ≡ some (ok ys)) × (zs ≡ xs ++ ys)
unfolding both
both-eq-ok none b h = cc
both-eq-ok (some (err x)) b h = cc
both-eq-ok (some (ok xs)) none h = cc
both-eq-ok (some (ok xs)) (some (err x)) h = cc
both-eq-ok (some (ok xs)) (some (ok ys)) h = (xs, ys, refl, refl, cc)

module _ (invoke : String → List String → Result Attempt)
    (classify : List String → Result Classification)
    (cases : List String → List String → Result (Unit {0})) where
  -- A leaf is a run that exited with 0, with a report that its cases are accepted from.
  pub record IsRun (leaf : Leaf) : Type 0 where
    pub path : String
    pub attempt : Attempt
    pub invoked : invoke path leaf.files ≡ ok attempt
    pub exited : attempt.returncode ≡ pos 0
    pub reported : leaf.lines ≡ attempt.lines
    pub copied : leaf.lcov ≡ attempt.lcov
    pub checked : cases leaf.files leaf.lines ≡ ok tt
    pub covered : attempt.has_lcov ≡ true

  pub record IsSplitOf (files : List String) (leaves : List Leaf) : Type 0 where
    pub tests : tests_of leaves ≡ files
    pub runs : All IsRun leaves

  accept-eq-ok :
      (half : List String) (a : Attempt) (leaves : List Leaf)
      → accept invoke classify cases half a ≡ ok leaves
      → (cases half a.lines ≡ ok tt)
        × (a.has_lcov ≡ true)
        × (leaves ≡ record { files = half; lines = a.lines; lcov = a.lcov } ∷ [])
  unfolding accept
  accept-eq-ok half a leaves h = ground arith

  accept-IsSplitOf :
      (half : List String) (path : String) (a : Attempt) (leaves : List Leaf)
      → invoke path half ≡ ok a
      → a.returncode ≡ pos 0
      → accept invoke classify cases half a ≡ ok leaves
      → IsSplitOf half leaves
  unfolding tests_of
  accept-IsSplitOf half path a leaves ran exit h =
      let (checked, covered, same) = accept-eq-ok half a leaves h in
      rw same (record {
        tests = append-nil half;
        runs = (
          record {
            path = path;
            attempt = a;
            invoked = ran;
            exited = exit;
            reported = refl;
            copied = refl;
            checked = checked;
            covered = covered;
          },
          tt,
        );
      })

  on_attempt-IsSplitOf :
      (again : List String → String → Outcome) (half : List String) (path : String)
      (leaves : List Leaf) (r : Result Attempt)
      → invoke path half ≡ r
      → on_attempt invoke classify cases again half path r ≡ some (ok leaves)
      → (again half path ≡ some (ok leaves) → IsSplitOf half leaves)
      → IsSplitOf half leaves
  unfolding on_attempt on_timeout on_fault
  on_attempt-IsSplitOf again half path leaves (err e) ran h deeper = cc
  on_attempt-IsSplitOf again half path leaves (ok a) ran h deeper =
      elim (Bool-cases (a.returncode == pos 0)) [
        | inl exit ↦
            accept-IsSplitOf half path a leaves ran (==→eq a.returncode (pos 0) exit) (ground arith)
        | inr other ↦ deeper (ground arith)
      ]

  both-IsSplitOf :
      (n : ℕ) (files : List String) (xs ys : List Leaf)
      → IsSplitOf (take n files) xs
      → IsSplitOf (drop n files) ys
      → IsSplitOf files (xs ++ ys)
  both-IsSplitOf n files xs ys a b = record {
    tests = rw (tests_of-append xs ys, a.tests, b.tests) (append-take-drop n files);
    runs = All-append IsRun xs ys a.runs b.runs;
  }

  -- Leaves that the split of a group gives are runs that exited with 0, whose reports `cases`
  -- accepts and whose coverage was written, of the tests of the group, each once and in order.
  pub split-IsSplitOf :
      (fuel : ℕ) (files : List String) (path : String) (leaves : List Leaf)
      → split invoke classify cases fuel files path ≡ some (ok leaves)
      → IsSplitOf files leaves
  unfolding split run_half
  split-IsSplitOf zero files path leaves h = cc
  split-IsSplitOf (suc fuel) files path leaves h =
      let mid = length files / 2 in
      let again = split invoke classify cases fuel in
      let (xs, ys, first, second, same) = both-eq-ok _ _ h in
      rw same (
        both-IsSplitOf mid files xs ys
          (on_attempt-IsSplitOf again (take mid files) (path <> "0") xs _ refl first
            (split-IsSplitOf fuel (take mid files) (path <> "0") xs))
          (on_attempt-IsSplitOf again (drop mid files) (path <> "1") ys _ refl second
            (split-IsSplitOf fuel (drop mid files) (path <> "1") ys)))
