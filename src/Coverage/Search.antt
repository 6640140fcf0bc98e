-- ===== src/Coverage/Search.antt =====
-- The expressions of `resource_snapshot`: a number between two texts. The texts are taken to be ASCII.
use yuelink_ci.Prelude.{
  ℕ, String, Bool, true, false, not, ◌||◌, List, [], ◌∷◌, Option, none, some, codes, is_digit,
  between, strip_prefix, ◌==◌, nat_eq, if◌then◌else◌,
}
use yuelink_ci.Coverage.Workers.{to_number}

-- An expression for a number: behind a text, which begins a line or not, and possibly blanks; and
-- before a text, which ends a line or not.
pub record Pattern : Type 0 where
  pub anchored : Bool
  pub before : String
  pub spaced : Bool
  pub behind : String
  pub to_end : Bool

abbrev pub is_whitespace : ℕ → Bool
is_whitespace c = between 9 13 c || between 28 32 c

unfoldable pub skip_spaces : List ℕ → List ℕ
skip_spaces [] = []
skip_spaces (c ∷ cs) = let rest = skip_spaces cs in if is_whitespace c then rest else c ∷ cs

-- `\s+`
unfoldable pub spaces : List ℕ → Option (List ℕ)
spaces [] = none
spaces (c ∷ cs) = if is_whitespace c then some (skip_spaces cs) else none

unfoldable pub digits : List ℕ → List ℕ × List ℕ
digits [] = ([], [])
digits (c ∷ cs) = let (ds, rest) = digits cs in if is_digit c then (c ∷ ds, rest) else ([], c ∷ cs)

-- `\d+`
abbrev pub number : List ℕ × List ℕ → Option (ℕ × List ℕ)
number ([], rest) = none
number (d ∷ ds, rest) = some (to_number 0 (d ∷ ds), rest)

abbrev pub at_end : List ℕ → Bool
at_end [] = true
at_end (c ∷ cs) = c == 10

-- The number, if the expression matches here.
unfoldable pub match_here : Pattern → List ℕ → Option ℕ
match_here p cs = elim (strip_prefix (codes p.before) cs) [
  | none ↦ none
  | some after ↦ elim (if p.spaced then spaces after else some after) [
    | none ↦ none
    | some ds ↦ elim (number (digits ds)) [
      | none ↦ none
      | some (n, rest) ↦ elim (strip_prefix (codes p.behind) rest) [
        | none ↦ none
        | some tail ↦ if not p.to_end || at_end tail then some n else none
      ]
    ]
  ]
]

-- `re.search`, from a place that begins a line or does not.
unfoldable pub search_number : Pattern → Bool → List ℕ → Option ℕ
search_number p starts [] = if starts || not p.anchored then match_here p [] else none
search_number p starts (c ∷ cs) =
    let rest = search_number p (c == 10) cs in
    elim (if starts || not p.anchored then match_here p (c ∷ cs) else none) [
      | some n ↦ some n
      | none ↦ rest
    ]

abbrev pub available_pattern : Pattern
available_pattern = record {
  anchored = true;
  before = "MemAvailable:";
  spaced = true;
  behind = " kB";
  to_end = true;
}

abbrev pub page_pattern : Pattern
page_pattern = record {
  anchored = false;
  before = "page size of ";
  spaced = false;
  behind = " bytes";
  to_end = false;
}

abbrev pub pages_pattern : String → Pattern
pages_pattern label = record {
  anchored = true;
  before = label;
  spaced = true;
  behind = ".";
  to_end = false;
}

abbrev pub search : Pattern → String → Option ℕ
search p text = search_number p true (codes text)
