-- ===== src/Tests/Rows.antt =====
-- Runs of `coverage_rows` and of `relative` of scripts/run-flutter-coverage.py.
use yuelink_ci.Prelude.{
  ◌≡◌, refl, String, true, false, List, [], ◌∷◌, ◌==◌, string_eq, nat_eq, if◌then◌else◌,
}
use yuelink_ci.Prelude.{strip_prefix, starts_with, split_text, split_once, drop_text}
use yuelink_ci.Prelude.Result.{Result, ok}
use yuelink_ci.Prelude.Int.{ℤ, pos}
use yuelink_ci.Coverage.ReportPath.{
  PosixPath, names, root_of, to_path, join_slash, text_of, below, relative_to, candidate, relative,
}
use yuelink_ci.Coverage.Rows.{
  Row, key_and_hits, is_counter, is_hit, counter_rows, on_source, on_counter, on_row, scan,
  coverage_rows,
}
use yuelink_ci.Coverage.Rows.Named.{IsRowOf}
use yuelink_ci.Prelude.{All}
use yuelink_ci.Coverage.Rows.Inside.{IsCounted, coverage_rows-IsCounted}

abbrev worker : PosixPath
worker = record { root = "/"; parts = "w" ∷ [] }

abbrev int_of : String → Result ℤ
int_of s = ok (if s == "2" then pos 2 else pos 0)

abbrev lines : List String
lines = "SF:/w/lib/a.dart" ∷ "FN:1,main" ∷ "FNDA:0,main" ∷ "DA:3,2" ∷ "end_of_record" ∷ []

abbrev row : String → String → Row
row kind key = record { source = "lib/a.dart"; kind = kind; key = key; covered = false }

abbrev rows : List Row
rows = row "FNDA" "main" ∷ row "DA" "3" ∷ record (row "DA" "3") { covered = true } ∷ []

relative_lem : relative worker "lib/" "/w/./lib//a.dart" ≡ ok "lib/a.dart"
unfolding relative candidate relative_to below to_path text_of join_slash names split_text root_of
    starts_with strip_prefix string_eq nat_eq
relative_lem = refl

coverage_rows_lem : coverage_rows int_of worker lines ≡ ok rows
unfolding coverage_rows scan on_row on_source on_counter counter_rows key_and_hits is_hit is_counter
    split_once drop_text relative candidate relative_to below to_path text_of join_slash names
    split_text root_of starts_with strip_prefix string_eq nat_eq
coverage_rows_lem = refl

coverage_rows-IsCounted_example : IsCounted rows × All (IsRowOf int_of worker lines) rows
coverage_rows-IsCounted_example = coverage_rows-IsCounted int_of worker lines rows coverage_rows_lem
