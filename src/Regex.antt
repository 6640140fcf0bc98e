-- ===== src/Regex.antt =====
-- Python's regular expressions as far as the source uses them: a pattern and the ways to match it
-- at the start of a text, each with the text that is left.
pub mod Member
pub mod Matches
use yuelink_ci.Prelude.{
  ℕ, ◌+◌, String, Bool, true, false, ◌||◌, List, [], ◌∷◌, ◌++◌, Option, none, some,
}
use yuelink_ci.Prelude.{codes, strip_prefix, any, between, ◌==◌, nat_eq, if◌then◌else◌}

-- `many` is `[class]*`; `text` is a literal, and `folded` one under `(?i)`, given in lower case.
pub data Regex : Type 0 where
  text folded : String → Regex
  one many : (ℕ → Bool) → Regex
  empty : Regex
  followed_by either : Regex → Regex → Regex

-- `(?:p)?`
abbrev pub maybe : Regex → Regex
maybe p = either p empty

-- The lower case that `(?i)` compares: İ and ı stand for i, ſ for s, and the Kelvin sign for k.
unfoldable pub fold_case : ℕ → ℕ
unfolding nat_eq
fold_case c =
    if between b'A' b'Z' c
    then c + 32
    else if c == 0x130 || c == 0x131
    then b'i'
    else if c == 0x17f
    then b's'
    else if c == 0x212a
    then b'k'
    else c

-- `\s` of a text.
unfoldable pub is_space : ℕ → Bool
unfolding nat_eq
is_space c =
    between 9 13 c
    || between 28 32 c
    || c == 0x85
    || c == 0xa0
    || c == 0x1680
    || between 0x2000 0x200a c
    || c == 0x2028
    || c == 0x2029
    || c == 0x202f
    || c == 0x205f
    || c == 0x3000

abbrev pub rest_of : Option (List ℕ) → List (List ℕ)
rest_of none = []
rest_of (some cs) = cs ∷ []

-- What a run of characters of a class may leave.
unfoldable pub rests_many : (ℕ → Bool) → List ℕ → List (List ℕ)
rests_many class [] = [] ∷ []
rests_many class (c ∷ cs) = (c ∷ cs) ∷ (if class c then rests_many class cs else [])

unfoldable pub rests_one : (ℕ → Bool) → List ℕ → List (List ℕ)
rests_one class [] = []
rests_one class (c ∷ cs) = if class c then cs ∷ [] else []

unfoldable pub strip_folded : List ℕ → List ℕ → Option (List ℕ)
unfolding nat_eq
strip_folded [] cs = some cs
strip_folded (p ∷ ps) [] = none
strip_folded (p ∷ ps) (c ∷ cs) = if p == fold_case c then strip_folded ps cs else none

unfoldable pub flat_map {ℓ κ} : {A : Type ℓ} {B : Type κ} → (A → List B) → List A → List B
flat_map f [] = []
flat_map f (x ∷ xs) = f x ++ flat_map f xs

-- What a match at the start of a text may leave.
unfoldable pub rests : Regex → List ℕ → List (List ℕ)
unfolding strip_prefix strip_folded rests_one rests_many flat_map
rests (text t) cs = rest_of (strip_prefix (codes t) cs)
rests (folded t) cs = rest_of (strip_folded (codes t) cs)
rests (one class) cs = rests_one class cs
rests (many class) cs = rests_many class cs
rests empty cs = cs ∷ []
rests (followed_by p q) cs = flat_map (rests q) (rests p cs)
rests (either p q) cs = rests p cs ++ rests q cs

abbrev pub is_end : List ℕ → Bool
is_end [] = true
is_end (c ∷ cs) = false

abbrev pub is_some_rest : List (List ℕ) → Bool
is_some_rest [] = false
is_some_rest (r ∷ rs) = true

-- `re.fullmatch(p, s)`
unfoldable pub full_match : Regex → List ℕ → Bool
full_match p cs = any is_end (rests p cs)

-- `re.search(p, s)`
unfoldable pub search_match : Regex → List ℕ → Bool
search_match p [] = is_some_rest (rests p [])
search_match p (c ∷ cs) = is_some_rest (rests p (c ∷ cs)) || search_match p cs
