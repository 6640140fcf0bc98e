-- ===== src/Coverage/Union.antt =====
-- The unions of `main`: the counter of the visible cases and the set of the coverage rows, each as
-- the sorted list that its digest is taken of.
use yuelink_ci.Prelude.{
  ℕ, ◌+◌, String, Bool, true, false, not, ◌&&◌, ◌||◌, List, [], ◌∷◌, map, length, ltb, codes,
}
use yuelink_ci.Prelude.{◌==◌, string_eq, nat_eq, if◌then◌else◌}
use yuelink_ci.Prelude.Int.{pos}
use yuelink_ci.Json.{Json, bool, int, str, arr, Items, nil, cons}
use yuelink_ci.Coverage.Cases.{Case}
use yuelink_ci.Coverage.Rows.{Row}

abbrev pub text_before : List ℕ → List ℕ → Bool
text_before [] [] = false
text_before [] (d ∷ ds) = true
text_before (c ∷ cs) [] = false
text_before (c ∷ cs) (d ∷ ds) = ltb c d || c == d && text_before cs ds

-- `s < t`, `False < True`
unfoldable pub text_lt : String → String → Bool
text_lt s t = text_before (codes s) (codes t)

abbrev pub bool_lt : Bool → Bool → Bool
bool_lt a b = not a && b

abbrev pub same_bool : Bool → Bool → Bool
same_bool true b = b
same_bool false b = not b

-- The order of tuples.
unfoldable pub case_lt : Case → Case → Bool
case_lt c d =
    text_lt c.path d.path
    || c.path == d.path
      && (text_lt c.name d.name || c.name == d.name && bool_lt c.skipped d.skipped)

unfoldable pub case_eq : Case → Case → Bool
case_eq c d = c.path == d.path && c.name == d.name && same_bool c.skipped d.skipped

unfoldable pub row_lt : Row → Row → Bool
row_lt r s =
    text_lt r.source s.source
    || r.source == s.source
      && (text_lt r.kind s.kind
          || r.kind == s.kind
            && (text_lt r.key s.key || r.key == s.key && bool_lt r.covered s.covered))

unfoldable pub row_eq : Row → Row → Bool
row_eq r s =
    r.source == s.source && r.kind == s.kind && r.key == s.key && same_bool r.covered s.covered

-- One more case in the sorted items of the counter.
unfoldable pub count_case : Case → List (Case × ℕ) → List (Case × ℕ)
count_case c [] = (c, 1) ∷ []
count_case c ((d, n) ∷ counted) =
    let later = count_case c counted in
    if case_eq c d
    then (d, n + 1) ∷ counted
    else if case_lt c d
    then (c, 1) ∷ (d, n) ∷ counted
    else (d, n) ∷ later

-- `sorted(case_union.items())`
unfoldable pub case_union : List Case → List (Case × ℕ)
case_union [] = []
case_union (c ∷ cs) = count_case c (case_union cs)

unfoldable pub add_row : Row → List Row → List Row
add_row r [] = r ∷ []
add_row r (s ∷ rows) =
    let later = add_row r rows in
    if row_eq r s then s ∷ rows else if row_lt r s then r ∷ s ∷ rows else s ∷ later

-- `sorted(coverage_union)`
unfoldable pub coverage_union : List Row → List Row
coverage_union [] = []
coverage_union (r ∷ rs) = add_row r (coverage_union rs)

-- `sum(case_union.values())`
abbrev pub sum_counts : List (Case × ℕ) → ℕ
sum_counts [] = 0
sum_counts ((c, n) ∷ counted) = n + sum_counts counted

-- The sum over the skipped ones.
abbrev pub sum_skips : List (Case × ℕ) → ℕ
sum_skips [] = 0
sum_skips ((c, n) ∷ counted) = if c.skipped then n + sum_skips counted else sum_skips counted

abbrev pub items_of : List Json → Items
items_of [] = nil
items_of (v ∷ vs) = cons v (items_of vs)

-- `[*identity, count]`
abbrev pub case_row : Case × ℕ → Json
case_row (c, n) = arr (items_of (str c.path ∷ str c.name ∷ bool c.skipped ∷ int (pos n) ∷ []))

abbrev pub coverage_row : Row → Json
coverage_row r = arr (items_of (str r.source ∷ str r.kind ∷ str r.key ∷ bool r.covered ∷ []))

-- `summary`
pub record Summary : Type 0 where
  pub cases_sha256 : String
  pub coverage_sha256 : String
  pub visible_cases : ℕ
  pub visible_skips : ℕ
  pub coverage_rows : ℕ

-- `dumps` is `json.dumps` with its separators, and `sha256` the digest of a text's bytes.
module _ (dumps : Json → String) (sha256 : String → String) where
  unfoldable pub digest : Json → String
  digest v = sha256 (dumps v)

  unfoldable pub summarize : List Case → List Row → Summary
  summarize visible rows =
      let counted = case_union visible in
      let covered = coverage_union rows in
      record {
        cases_sha256 = digest (arr (items_of (map case_row counted)));
        coverage_sha256 = digest (arr (items_of (map coverage_row covered)));
        visible_cases = sum_counts counted;
        visible_skips = sum_skips counted;
        coverage_rows = length covered;
      }
