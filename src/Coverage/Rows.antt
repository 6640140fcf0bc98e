-- ===== src/Coverage/Rows.antt =====
-- `coverage_rows`: the counters of a coverage report. `int` of a text is a parameter.
pub mod Named
pub mod Inside
use yuelink_ci.Prelude.{String, ◌<>◌, Bool, true, false, not, ◌||◌, List, [], ◌∷◌, ◌++◌}
use yuelink_ci.Prelude.{
  Option, none, some, starts_with, split_text, split_once, drop_text, ◌==◌, string_eq,
  if◌then◌else◌,
}
use yuelink_ci.Prelude.Result.{Result, ok, err, value_error, index_error, ◌>>=◌}
use yuelink_ci.Prelude.Int.{ℤ, pos, leb_ℤ}
use yuelink_ci.Coverage.ReportPath.{PosixPath, relative}

-- An element of `rows`.
pub record Row : Type 0 where
  pub source : String
  pub kind : String
  pub key : String
  pub covered : Bool

-- `rows` as the list of what was added to it, and `source`.
pub record Found : Type 0 where
  pub rows : List Row
  pub source : Option String

abbrev pub nothing_found : Found
nothing_found = record { rows = []; source = none }

-- `first, second = texts`, for the two texts that a slice or a split gives.
abbrev pub two_of : List String → Result (String × String)
two_of (key ∷ hits ∷ rest) = ok (key, hits)
two_of texts = err (value_error "not enough values to unpack")

abbrev pub three_and_hits : List String → Result (String × String)
three_and_hits (a ∷ b ∷ c ∷ hits ∷ rest) = ok (a <> "," <> b <> "," <> c, hits)
three_and_hits texts = err index_error

abbrev pub swapped : Option (String × String) → Result (String × String)
swapped none = err (value_error "not enough values to unpack")
swapped (some (hits, key)) = ok (key, hits)

-- The counter's key and its hits.
unfoldable pub key_and_hits : String → String → Result (String × String)
key_and_hits kind payload =
    if kind == "DA"
    then two_of (split_text b',' payload)
    else if kind == "BRDA"
    then three_and_hits (split_text b',' payload)
    else swapped (split_once b',' payload)

-- `kind, payload = line.split(":", 1)`
abbrev pub kind_and_payload : Option (String × String) → Result (String × String)
kind_and_payload none = err (value_error "not enough values to unpack")
kind_and_payload (some p) = ok p

unfoldable pub is_counter : String → Bool
is_counter line = starts_with "DA:" line || starts_with "BRDA:" line || starts_with "FNDA:" line

abbrev pub source_of : Option String → Result String
source_of none = err (value_error "coverage counter without source")
source_of (some source) = ok source

module _ (int : String → Result ℤ) (worker : PosixPath) where
  -- `hits != "-" and int(hits) > 0`
  unfoldable pub is_hit : String → Result Bool
  is_hit hits = if hits == "-" then ok false else int hits >>= λ n. ok (not (leb_ℤ n (pos 0)))

  -- The rows of a counter.
  unfoldable pub counter_rows : String → String → Result (List Row)
  counter_rows source line = do
    (kind, payload) ← kind_and_payload (split_once b':' line)
    (key, hits) ← key_and_hits kind payload
    hit ← is_hit hits
    let seen : Row = record { source = source; kind = kind; key = key; covered = false }
    ok (if hit then seen ∷ record seen { covered = true } ∷ [] else seen ∷ [])

  unfoldable pub on_source : Found → String → Result Found
  on_source s line = do
    source ← relative worker "lib/" (drop_text 3 line)
    ok (record s { source = some source })

  unfoldable pub on_counter : Found → String → Result Found
  on_counter s line = do
    source ← source_of s.source
    new ← counter_rows source line
    ok (record s { rows = s.rows ++ new })

  -- The body of the loop.
  unfoldable pub on_row : Found → String → Result Found
  on_row s line =
      if starts_with "SF:" line
      then on_source s line
      else if line == "end_of_record"
      then ok (record s { source = none })
      else if is_counter line
      then on_counter s line
      else ok s

  unfoldable pub scan : Found → List String → Result Found
  scan s [] = ok s
  scan s (line ∷ lines) = on_row s line >>= λ t. scan t lines

  unfoldable pub coverage_rows : List String → Result (List Row)
  coverage_rows lines = do s ← scan nothing_found lines; ok s.rows
