-- ===== src/Coverage/Stitch/Joined.antt =====
-- The joined report of accepted leaves is accepted, with the sum of their tests.
use mathlib.Core.List.{map-append}
use yuelink_ci.Prelude.{
  ℕ, ◌+◌, ◌≡◌, ◌≢◌, refl, ap, ◌∙◌, String, Bool, true, false, List, [], ◌∷◌, ◌++◌, Option, none,
  map, All, arith, string_eq,
}
use yuelink_ci.Prelude.Result.{ok, >>=-eq-ok}
use yuelink_ci.Prelude.Int.{ℤ, pos, ◌+ℤ◌}
use yuelink_ci.Json.{Json}
use yuelink_ci.MachineCount.{count_test_starts}
use yuelink_ci.MachineCount.Grammar
use yuelink_ci.MachineCount.Grammar.{
  IsOrdinary, IsStart, IsSuccess, IsProtocol, tests, count_test_starts-IsProtocol,
}
use yuelink_ci.Coverage.Stitch.{Line, stitch_leaf, stitch_from, stitch}
use yuelink_ci.Coverage.Stitch.Kept.{
  Kept, text_of, IsReadable, IsClean, All-unappend, stitch_leaf-Kept,
}
use yuelink_ci.Coverage.Stitch.Parts.{
  IsTail, IsBody-IsTail, last-IsTail, middle-IsBody, whole-IsProtocol, first-IsProtocol,
}

module _ (strip : String → String) (loads : String → Option Json) (dumps : Json → String) where
  abbrev pub lines_of : List Line → List String
  lines_of out = map (text_of strip loads dumps) out

  events-append :
      (xs ys : List String)
      → Grammar.events strip loads (xs ++ ys)
        ≡ Grammar.events strip loads xs ++ Grammar.events strip loads ys
  unfolding Grammar.events
  events-append [] ys = refl
  events-append (x ∷ xs) ys = ground (arith, events-append xs ys)

  pub joined-events :
      (xs ys : List Line)
      → Grammar.events strip loads (lines_of (xs ++ ys))
        ≡ Grammar.events strip loads (lines_of xs) ++ Grammar.events strip loads (lines_of ys)
  joined-events xs ys =
      ap (Grammar.events strip loads) (map-append (text_of strip loads dumps) xs ys)
      ∙ events-append (lines_of xs) (lines_of ys)

  -- A report that the counter accepts, whose lines are without outer blanks of a kind that only
  -- Python's `strip` removes.
  pub record IsAccepted (lines : List String) (n : ℕ) : Type 0 where
    pub clean : All (IsClean strip loads dumps) lines
    pub counted : count_test_starts strip loads lines ≡ ok n

  -- Every line that is not blank is JSON.
  abbrev pub IsBare : List String → Type 0
  IsBare lines = All (λ e. e ≢ none) (Grammar.events strip loads lines)

  -- Leaves behind the first: accepted and bare.
  abbrev pub AreBare : List (List String) → List ℕ → Type 0
  AreBare [] [] = Unit
  AreBare (lines ∷ leaves) (n ∷ ns) = IsAccepted lines n × IsBare lines × AreBare leaves ns
  AreBare leaves ns = ⊥

  abbrev pub total : List ℕ → ℕ
  total [] = 0
  total (n ∷ ns) = n + total ns

  abbrev pub AreReadable : List Line → Type 0
  AreReadable out = All (IsReadable strip loads dumps) out

  module _ (float_add : String → ℤ → String) (no_text : loads "" ≡ none) where
    pub leaf-Kept :
        (offset : ℤ) (first last : Bool) (lines : List String) (n : ℕ) (m : ℤ) (out : List Line)
        → IsAccepted lines n
        → stitch_leaf float_add loads offset first last (pos 0) lines ≡ ok (m, out)
        → AreReadable out
        → IsProtocol (Grammar.events strip loads lines) n
          × Kept first last
              (Grammar.events strip loads lines)
              (Grammar.events strip loads (lines_of out))
    leaf-Kept offset first last lines n m out leaf h good = (
      (count_test_starts-IsProtocol strip loads lines n).0 leaf.counted,
      stitch_leaf-Kept strip loads dumps float_add offset first last (pos 0) lines m out no_text h
          leaf.clean good,
    )

    stitch_from-IsTail :
        (offset : ℤ) (leaf : List String) (leaves : List (List String)) (n : ℕ) (ns : List ℕ)
        (out : List Line)
        → AreBare (leaf ∷ leaves) (n ∷ ns)
        → stitch_from float_add loads offset false (leaf ∷ leaves) ≡ ok out
        → AreReadable out
        → IsTail (total (n ∷ ns)) (Grammar.events strip loads (lines_of out))
    unfolding stitch_from
    stitch_from-IsTail offset leaf [] n [] out bare h good =
        let ((m, out'), one, same) =
          >>=-eq-ok (stitch_leaf float_add loads offset false true (pos 0) leaf) _ h in
        let same' : out' ≡ out = ground arith in
        let (protocol, k) = leaf-Kept offset false true leaf n m out' bare.0 one (rw same' good) in
        last-IsTail n _ _ protocol bare.1 (rw same' at k)
    stitch_from-IsTail offset leaf [] n (n' ∷ ns) out bare h good = absurd bare.2
    stitch_from-IsTail offset leaf (next ∷ leaves) n [] out bare h good = absurd bare.2
    stitch_from-IsTail offset leaf (next ∷ leaves) n (n' ∷ ns) out bare h good =
        let ((m, here), one, after) =
          >>=-eq-ok (stitch_leaf float_add loads offset false false (pos 0) leaf) _ h in
        let offset' = offset +ℤ (m +ℤ pos 1) in
        let (rest, two, same) =
          >>=-eq-ok (stitch_from float_add loads offset' false (next ∷ leaves)) _ after in
        let whole : out ≡ here ++ rest = ground arith in
        let (good_here, good_rest) =
          All-unappend (IsReadable strip loads dumps) here rest (rw whole at good) in
        let (protocol, k) = leaf-Kept offset false false leaf n m here bare.0 one good_here in
        let tail = stitch_from-IsTail offset' next leaves n' ns rest bare.2 two good_rest in
        rw (whole, joined-events here rest)
          (IsBody-IsTail n (total (n' ∷ ns)) _ _ (middle-IsBody n _ _ protocol bare.1 k) tail)

    -- The joined report of accepted leaves is accepted, with the sum of their tests, if the leaves
    -- behind the first have no line but JSON and blank ones, and what `json.dumps` writes is read
    -- back.
    pub stitch-total :
        (leaf : List String) (leaves : List (List String)) (n : ℕ) (ns : List ℕ) (out : List Line)
        → IsAccepted leaf n
        → AreBare leaves ns
        → stitch float_add loads (leaf ∷ leaves) ≡ ok out
        → All (IsReadable strip loads dumps) out
        → count_test_starts strip loads (lines_of out) ≡ ok (n + total ns)
    unfolding stitch stitch_from
    stitch-total leaf [] n [] out first bare h good =
        let ((m, out'), one, same) =
          >>=-eq-ok (stitch_leaf float_add loads (pos 0) true true (pos 0) leaf) _ h in
        let same' : out' ≡ out = ground arith in
        let (protocol, k) = leaf-Kept (pos 0) true true leaf n m out' first one (rw same' good) in
        (count_test_starts-IsProtocol strip loads (lines_of out) (n + 0)).1
          (whole-IsProtocol n _ _ protocol (rw same' at k))
    stitch-total leaf [] n (n' ∷ ns) out first bare h good = absurd bare
    stitch-total leaf (next ∷ leaves) n [] out first bare h good = absurd bare
    stitch-total leaf (next ∷ leaves) n (n' ∷ ns) out first bare h good =
        let ((m, here), one, after) =
          >>=-eq-ok (stitch_leaf float_add loads (pos 0) true false (pos 0) leaf) _ h in
        let offset' = pos 0 +ℤ (m +ℤ pos 1) in
        let (rest, two, same) =
          >>=-eq-ok (stitch_from float_add loads offset' false (next ∷ leaves)) _ after in
        let whole : out ≡ here ++ rest = ground arith in
        let (good_here, good_rest) =
          All-unappend (IsReadable strip loads dumps) here rest (rw whole at good) in
        let (protocol, k) = leaf-Kept (pos 0) true false leaf n m here first one good_here in
        let tail = stitch_from-IsTail offset' next leaves n' ns rest bare two good_rest in
        (count_test_starts-IsProtocol strip loads (lines_of out) (n + total (n' ∷ ns))).1 (
          rw (whole, joined-events here rest)
            (first-IsProtocol n (total (n' ∷ ns)) _ _ _ protocol k tail))
