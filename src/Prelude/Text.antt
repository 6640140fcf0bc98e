-- ===== src/Prelude/Text.antt =====
-- A Python `str` as its code points, and the character classes of the source's expressions.
use Prim.Native.Nat.{ℕ, zero, suc}
use Prim.Native.Char.{Char, code}
use Prim.Native.String.{String}
use mathlib.Core.Bool.{Bool, true, false, ◌&&◌, ◌||◌}
use mathlib.Core.Option.{Option, none, some}
use mathlib.Core.List.{List, [], ◌∷◌}
use yuelink_ci.Prelude.Equality.{◌==◌, nat_eq, if◌then◌else◌}
use yuelink_ci.Prelude.Tests.{leb}
use yuelink_ci.Prelude.Lists.{length, all}

abbrev pub codes : String → List ℕ
codes String.[] = []
codes (String.◌∷◌ c s) = code c ∷ codes s

abbrev pub between : ℕ → ℕ → ℕ → Bool
between lo hi c = leb lo c && leb c hi

-- [0-9]
abbrev pub is_digit : ℕ → Bool
is_digit c = between b'0' b'9' c

-- [0-9a-f]
abbrev pub is_hex : ℕ → Bool
is_hex c = is_digit c || between b'a' b'f' c

-- [A-Za-z]
abbrev pub is_letter : ℕ → Bool
is_letter c = between b'A' b'Z' c || between b'a' b'z' c

-- `re.fullmatch(r"[0-9a-f]{n}", s)`, and the source's test of a digest by length and alphabet.
unfoldable pub is_hex_of_length : ℕ → String → Bool
unfolding nat_eq
is_hex_of_length n s = length (codes s) == n && all is_hex (codes s)

abbrev prepend : ℕ → List (List ℕ) → List (List ℕ)
prepend c [] = (c ∷ []) ∷ []
prepend c (w ∷ ws) = (c ∷ w) ∷ ws

-- `s.split(sep)` for a separator of one character: one piece more than there are separators.
unfoldable pub split : ℕ → List ℕ → List (List ℕ)
unfolding nat_eq
split sep [] = [] ∷ []
split sep (c ∷ cs) = let rest = split sep cs in if c == sep then [] ∷ rest else prepend c rest

-- What follows the prefix, if the text begins with it.
unfoldable pub strip_prefix : List ℕ → List ℕ → Option (List ℕ)
unfolding nat_eq
strip_prefix [] cs = some cs
strip_prefix (p ∷ ps) [] = none
strip_prefix (p ∷ ps) (c ∷ cs) = if p == c then strip_prefix ps cs else none

-- One or more characters of a class: `[class]+` against the whole text.
unfoldable pub is_word_of : (ℕ → Bool) → List ℕ → Bool
is_word_of class [] = false
is_word_of class (c ∷ cs) = all class (c ∷ cs)

-- `re.fullmatch` for an expression of single characters, `d` standing for `[0-9]`.
unfoldable pub fits_template : List ℕ → List ℕ → Bool
unfolding nat_eq
fits_template [] [] = true
fits_template (t ∷ ts) (c ∷ cs) = (if t == b'd' then is_digit c else t == c) && fits_template ts cs
fits_template [] (c ∷ cs) = false
fits_template (t ∷ ts) [] = false

-- The first n characters of a text, and what follows them.
unfoldable pub take_text : ℕ → String → String
take_text zero s = ""
take_text (suc n) String.[] = ""
take_text (suc n) (String.◌∷◌ c s) = String.◌∷◌ c (take_text n s)

unfoldable pub drop_text : ℕ → String → String
drop_text zero s = s
drop_text (suc n) String.[] = ""
drop_text (suc n) (String.◌∷◌ c s) = drop_text n s

-- `s.rsplit("/", 1)`: what stands before and behind the last "/", if there is one.
unfoldable pub rsplit_slash : String → Option (String × String)
unfolding nat_eq
rsplit_slash String.[] = none
rsplit_slash (String.◌∷◌ c s) = elim (rsplit_slash s) [
  | some (before, behind) ↦ some (String.◌∷◌ c before, behind)
  | none ↦ if code c == b'/' then some ("", s) else none
]

abbrev prepend_text : Char → List String → List String
prepend_text c [] = String.◌∷◌ c "" ∷ []
prepend_text c (s ∷ ss) = String.◌∷◌ c s ∷ ss

-- `s.split(sep)`, into texts.
unfoldable pub split_text : ℕ → String → List String
unfolding nat_eq
split_text sep String.[] = "" ∷ []
split_text sep (String.◌∷◌ c s) =
    let rest = split_text sep s in if code c == sep then "" ∷ rest else prepend_text c rest

-- `s.split(sep, 1)`: what stands before and behind the first separator, if there is one.
unfoldable pub split_once : ℕ → String → Option (String × String)
unfolding nat_eq
split_once sep String.[] = none
split_once sep (String.◌∷◌ c s) =
    let rest = split_once sep s in
    if code c == sep
    then some ("", s)
    else elim rest [ some (before, behind) ↦ some (String.◌∷◌ c before, behind) | none ↦ none ]

-- `s.startswith(prefix)`
unfoldable pub starts_with : String → String → Bool
starts_with prefix s = elim (strip_prefix (codes prefix) (codes s)) [
  | none ↦ false
  | some rest ↦ true
]
