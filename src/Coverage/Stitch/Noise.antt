-- ===== src/Coverage/Stitch/Noise.antt =====
-- A joined report in which a leaf behind the first starts with a line that is no JSON.
use mathlib.Core.List.{append_assoc}
use yuelink_ci.Prelude.{
  ℕ, ◌≡◌, ◌≢◌, refl, sym, ap, subst, ◌∙◌, String, true, false, List, [], ◌∷◌, ◌++◌, Option, none,
  some, map, All, arith,
}
use yuelink_ci.Prelude.Result.{ok, >>=-eq-ok}
use yuelink_ci.Prelude.Int.{ℤ, pos, ◌+ℤ◌}
use yuelink_ci.Json.{Json}
use yuelink_ci.MachineCount.{count_test_starts}
use yuelink_ci.MachineCount.Grammar
use yuelink_ci.MachineCount.Grammar.{IsProtocol, count_test_starts-IsProtocol}
use yuelink_ci.Coverage.Stitch.{Line, stitch_leaf, stitch_from, stitch}
use yuelink_ci.Coverage.Stitch.Kept.{Kept, IsReadable, IsClean, All-unappend, stitch_leaf-Kept}
use yuelink_ci.Coverage.Stitch.Parts.{Record, IsHead, Kept-first}
use yuelink_ci.Coverage.Stitch.Joined.{lines_of, joined-events, IsAccepted, leaf-Kept}

-- Behind a JSON record no line is anything else.
abbrev IsSettled : List Record → Type 0
IsSettled [] = Unit
IsSettled (none ∷ es) = IsSettled es
IsSettled (some v ∷ es) = All (λ e. e ≢ none) es

bodies-some :
    (body : List Json) (last : Json)
    → All (λ (e : Record). e ≢ none) (map some body ++ (some last ∷ []))
bodies-some [] last = ((λ e. cc), tt)
bodies-some (v ∷ body) last = ((λ e. cc), bodies-some body last)

noise-IsSettled :
    (noise : List Record) (v : Json) (es : List Record)
    → All (λ e. e ≡ none) noise
    → All (λ e. e ≢ none) es
    → IsSettled (noise ++ (some v ∷ es))
noise-IsSettled [] v es quiet all = all
noise-IsSettled (none ∷ noise) v es quiet all = noise-IsSettled noise v es quiet.1 all
noise-IsSettled (some w ∷ noise) v es quiet all = absurd (ground (arith, quiet.0))

IsProtocol-IsSettled : (es : List Record) (n : ℕ) → IsProtocol es n → IsSettled es
IsProtocol-IsSettled es n p =
    subst IsSettled (sym p.shape)
      (noise-IsSettled p.noise p.first _ p.quiet (bodies-some p.body p.last))

late_noise : (es fs : List Record) → All (λ (e : Record). e ≢ none) (es ++ (none ∷ fs)) → ⊥
late_noise [] fs h = h.0 refl
late_noise (e ∷ es) fs h = late_noise es fs h.1

unsettled :
    (noise : List Record) (v : Json) (es fs : List Record)
    → All (λ e. e ≡ none) noise
    → IsSettled (noise ++ (some v ∷ (es ++ (none ∷ fs))))
    → ⊥
unsettled [] v es fs quiet h = late_noise es fs h
unsettled (none ∷ noise) v es fs quiet h = unsettled noise v es fs quiet.1 h
unsettled (some w ∷ noise) v es fs quiet h = absurd (ground (arith, quiet.0))

head-unsettled :
    (n : ℕ) (start mid rest : List Record)
    → IsHead start
    → IsProtocol (start ++ (mid ++ (none ∷ rest))) n
    → ⊥
head-unsettled n start mid rest head p = unsettled head.noise head.first mid rest head.quiet (
    subst IsSettled
      (ap (λ l. l ++ (mid ++ (none ∷ rest))) head.shape
        ∙ append_assoc head.noise (some head.first ∷ []) (mid ++ (none ∷ rest)))
      (IsProtocol-IsSettled _ n p))

module _ (strip : String → String) (loads : String → Option Json) (dumps : Json → String)
    (float_add : String → ℤ → String) (no_text : loads "" ≡ none) where
  abbrev pub records : List Line → List Record
  records out = Grammar.events strip loads (lines_of strip loads dumps out)

  -- The joined rest begins with the line.
  noisy-rest :
      (offset : ℤ) (next : List String) (leaves : List (List String)) (es : List Record)
      (out : List Line)
      → All (IsClean strip loads dumps) next
      → Grammar.events strip loads next ≡ none ∷ es
      → stitch_from float_add loads offset false (next ∷ leaves) ≡ ok out
      → All (IsReadable strip loads dumps) out
      → (rest : List Record) × (records out ≡ none ∷ rest)
  unfolding stitch_from
  noisy-rest offset next [] es out clean noisy h good =
      let ((m, here), one, same) =
        >>=-eq-ok (stitch_leaf float_add loads offset false true (pos 0) next) _ h in
      let same' : out ≡ here = ground arith in
      let k =
        stitch_leaf-Kept strip loads dumps float_add offset false true (pos 0) next m here no_text
          one clean (rw same' at good) in
      let k' : Kept false true (none ∷ es) (records here) =
        subst (λ l. Kept false true l (records here)) noisy k in
      (k'.0, ap records same' ∙ k'.1)
  noisy-rest offset next (third ∷ leaves) es out clean noisy h good =
      let ((m, here), one, after) =
        >>=-eq-ok (stitch_leaf float_add loads offset false false (pos 0) next) _ h in
      let (rest, two, same) =
        >>=-eq-ok (stitch_from float_add loads (offset +ℤ (m +ℤ pos 1)) false (third ∷ leaves)) _
          after in
      let whole : out ≡ here ++ rest = ground arith in
      let (good_here, good_rest) =
        All-unappend (IsReadable strip loads dumps) here rest (rw whole at good) in
      let k =
        stitch_leaf-Kept strip loads dumps float_add offset false false (pos 0) next m here no_text
          one clean good_here in
      let k' : Kept false false (none ∷ es) (records here) =
        subst (λ l. Kept false false l (records here)) noisy k in
      (
        k'.0 ++ records rest,
        ap records whole
            ∙ joined-events strip loads dumps here rest
            ∙ ap (λ l. l ++ records rest) k'.1,
      )

  -- The counter refuses the joined report of accepted leaves if the second one has a line that is no
  -- JSON before its start, as a leaf alone may.
  pub stitch_refused :
      (leaf next : List String) (leaves : List (List String)) (n k : ℕ) (es : List Record)
      (out : List Line)
      → IsAccepted strip loads dumps leaf n
      → IsAccepted strip loads dumps next k
      → Grammar.events strip loads next ≡ none ∷ es
      → stitch float_add loads (leaf ∷ next ∷ leaves) ≡ ok out
      → All (IsReadable strip loads dumps) out
      → (m : ℕ) → count_test_starts strip loads (lines_of strip loads dumps out) ≢ ok m
  unfolding stitch stitch_from
  stitch_refused leaf next leaves n k es out first second noisy h good count e =
      let ((m, here), one, after) =
        >>=-eq-ok (stitch_leaf float_add loads (pos 0) true false (pos 0) leaf) _ h in
      let offset = pos 0 +ℤ (m +ℤ pos 1) in
      let (rest, two, same) =
        >>=-eq-ok (stitch_from float_add loads offset false (next ∷ leaves)) _ after in
      let whole : out ≡ here ++ rest = ground arith in
      let (good_here, good_rest) =
        All-unappend (IsReadable strip loads dumps) here rest (rw whole at good) in
      let (protocol, kept) =
        leaf-Kept strip loads dumps float_add no_text (pos 0) true false leaf n m here first one
          good_here in
      let (d, start, mid, tail, success, shape, head, body, last) =
        Kept-first false n _ _ protocol kept in
      let (more, begins) = noisy-rest offset next leaves es rest second.clean noisy two good_rest in
      let p =
        (count_test_starts-IsProtocol strip loads (lines_of strip loads dumps out) count).0 e in
      head-unsettled count start (mid ++ tail) more head (
        subst (λ l. IsProtocol l count)
          (ap records whole
            ∙ joined-events strip loads dumps here rest
            ∙ ap (λ l. l ++ records rest) shape
            ∙ ap (λ l. (start ++ (mid ++ tail)) ++ l) begins
            ∙ append_assoc start (mid ++ tail) (none ∷ more))
          p)
