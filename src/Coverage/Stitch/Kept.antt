-- ===== src/Coverage/Stitch/Kept.antt =====
-- The records of a leaf that the joined report keeps.
use yuelink_ci.Prelude.{
  ◌≡◌, refl, sym, ap, ◌∙◌, ◌⊎◌, inl, inr, String, Bool, true, false, List, [], ◌∷◌, ◌++◌, Option,
  none, some, map, All, Bool-cases, arith, ◌==◌, ==→eq, string_eq, if◌then◌else◌,
}
use yuelink_ci.Prelude.Result.{ok, value_or, >>=-eq-ok}
use yuelink_ci.Prelude.Int.{ℤ}
use yuelink_ci.Json.{Json, obj, Fields, end}
use yuelink_ci.MachineCount.{event_type, succeeded}
use yuelink_ci.MachineCount.Grammar
use yuelink_ci.Coverage.Stitch.{Line, raw, written, is_dropped, renumber, on_value, stitch_leaf}
use yuelink_ci.Coverage.Stitch.Renumbered.{renumber-IsKept}

-- What a counter of tests reads of a record.
abbrev pub SameKind : Json → Json → Type 0
SameKind v w = (event_type w ≡ event_type v) × (succeeded w ≡ succeeded v)

-- The records of the second list are those of the first, without the dropped ones.
abbrev pub Kept : Bool → Bool → List (Option Json) → List (Option Json) → Type 0
Kept first last [] out = out ≡ []
Kept first last (none ∷ es) out =
    (rest : List (Option Json)) × (out ≡ none ∷ rest) × Kept first last es rest
Kept first last (some v ∷ es) out =
    (is_dropped first last v ≡ true) × Kept first last es out
    ⊎ (is_dropped first last v ≡ false)
      × ((w : Json) × (rest : List (Option Json)) × (out ≡ some w ∷ rest)
          × SameKind v w
          × Kept first last es rest)

pub All-unappend :
    {A : Type 0} (P : A → Type 0) (xs ys : List A) → All P (xs ++ ys) → All P xs × All P ys
All-unappend P [] ys h = (tt, h)
All-unappend P (x ∷ xs) ys h = let (a, b) = All-unappend P xs ys h.1 in ((h.0, a), b)

module _ (strip : String → String) (loads : String → Option Json) (dumps : Json → String) where
  abbrev pub text_of : Line → String
  text_of (raw line) = line
  text_of (written v) = dumps v

  -- A written event is read back.
  abbrev pub IsReadable : Line → Type 0
  IsReadable (raw line) = Unit
  IsReadable (written v) = (loads (strip (dumps v)) ≡ some v) × ((strip (dumps v) == "") ≡ false)

  -- Stripping a line changes nothing for the decoder.
  abbrev pub IsClean : String → Type 0
  IsClean line = loads (strip line) ≡ loads line

  abbrev pub events_of : List Line → List (Option Json)
  events_of out = Grammar.events strip loads (map text_of out)

  raw-events :
      (line : String) (v : Option Json) (rest : List Line)
      → loads (strip line) ≡ v
      → (strip line == "") ≡ false
      → events_of (raw line ∷ rest) ≡ v ∷ events_of rest
  unfolding Grammar.events
  raw-events line v rest read text = rw (text, read) refl

  written-events :
      (v : Json) (rest : List Line)
      → IsReadable (written v)
      → events_of (written v ∷ rest) ≡ some v ∷ events_of rest
  unfolding Grammar.events
  written-events v rest good = rw (good.1, good.0) refl

  blank-events :
      (line : String) (rest : List Line)
      → (strip line == "") ≡ true
      → events_of (raw line ∷ rest) ≡ events_of rest
  unfolding Grammar.events
  blank-events line rest blank = rw blank refl

  module _ (float_add : String → ℤ → String) (offset : ℤ) (first last : Bool) where
    object-Kept :
        (es : List (Option Json)) (event moved : Fields) (rest : List Line)
        → renumber float_add offset event ≡ ok moved
        → All IsReadable
            (if is_dropped first last (obj event) then [] else written (obj moved) ∷ [])
        → Kept first last es (events_of rest)
        → Kept first last (some (obj event) ∷ es) (
            events_of (
              (if is_dropped first last (obj event) then [] else written (obj moved) ∷ []) ++ rest))
    object-Kept es event moved rest h good k =
        elim (Bool-cases (is_dropped first last (obj event))) [
          | inl gone ↦ inl (gone, rw gone k)
          | inr there ↦
              let readable = (rw there at good).0 in
              inr (
                there,
                (
                  obj moved,
                  events_of rest,
                  rw there (written-events (obj moved) rest readable),
                  renumber-IsKept float_add offset event moved h,
                  k,
                ),
              )
        ]

    -- A line that is not blank.
    value-Kept :
        (m : ℤ) (line : String) (es : List (Option Json)) (v : Option Json) (m' : ℤ)
        (out rest : List Line)
        → on_value float_add offset first last m line v ≡ ok (m', out)
        → loads (strip line) ≡ v
        → (strip line == "") ≡ false
        → All IsReadable out
        → Kept first last es (events_of rest)
        → Kept first last (v ∷ es) (events_of (out ++ rest))
    unfolding on_value is_dropped
    value-Kept m line es none m' out rest h read text good k =
        let same : out ≡ raw line ∷ [] = ground arith in
        (events_of rest, rw same (raw-events line none rest read text), k)
    value-Kept m line es (some (obj event)) m' out rest h read text good k =
        let moved = value_or end (renumber float_add offset event) in
        let same : out
            ≡ (if is_dropped first last (obj event) then [] else written (obj moved) ∷ []) =
          ground arith in
        rw same (object-Kept es event moved rest (ground arith) (rw same at good) k)
    value-Kept m line es (some v) m' out rest h read text good k =
        let same : out ≡ written v ∷ [] = ground arith in
        inr (
          refl,
          (v, events_of rest, rw same (written-events v rest (rw same at good).0), (refl, refl), k),
        )

    raw_of :
        (m : ℤ) (line : String) (v : Option Json) (m' : ℤ) (here : List Line)
        → v ≡ none
        → on_value float_add offset first last m line v ≡ ok (m', here)
        → here ≡ raw line ∷ []
    unfolding on_value
    raw_of m line none m' here e h = ground arith
    raw_of m line (some v) m' here e h = cc

    -- The records of a leaf, as the joined report has them.
    pub stitch_leaf-Kept :
        (m : ℤ) (lines : List String) (m' : ℤ) (out : List Line)
        → loads "" ≡ none
        → stitch_leaf float_add loads offset first last m lines ≡ ok (m', out)
        → All IsClean lines
        → All IsReadable out
        → Kept first last (Grammar.events strip loads lines) (events_of out)
    unfolding stitch_leaf Grammar.events
    stitch_leaf-Kept m [] m' out no_text h clean good =
        let same : out ≡ [] = ground arith in rw same refl
    stitch_leaf-Kept m (line ∷ lines) m' out no_text h clean good =
        let ((m1, here), one, after) =
          >>=-eq-ok (on_value float_add offset first last m line (loads line)) _ h in
        let ((m2, rest), two, last') =
          >>=-eq-ok (stitch_leaf float_add loads offset first last m1 lines) _ after in
        let same : out ≡ here ++ rest = ground arith in
        let (good_here, good_rest) = All-unappend IsReadable here rest (rw same at good) in
        let k = stitch_leaf-Kept m1 lines m2 rest no_text two clean.1 good_rest in
        elim (Bool-cases (strip line == "")) [
          | inl blank ↦
              let none_read : loads line ≡ none =
                sym clean.0 ∙ (ap loads (==→eq (strip line) "" blank) ∙ no_text) in
              let raw_line : here ≡ raw line ∷ [] =
                raw_of m line (loads line) m1 here none_read one in
              rw (same, raw_line, blank-events line rest blank, blank) k
          | inr text ↦
              rw (same, text, clean.0)
                (value-Kept m line (Grammar.events strip loads lines) (loads line) m1 here rest one
                  clean.0 text good_here k)
        ]
