-- ===== src/Baseline.antt =====
-- scripts/contract-baseline.py: the signed baseline of the source contract.
pub mod Selected
use yuelink_ci.Prelude.{ℕ, String, ◌<>◌, Bool, true, false, not, Option, none, some, ◌==◌}
use yuelink_ci.Prelude.{string_eq, is_hex_of_length, if◌then◌else◌}
use yuelink_ci.Prelude.Result.{Result, ok, err, value_error, ◌>>=◌, ◌>>◌, raise_if}
use yuelink_ci.Json.{Json, str, Fields, get}
use yuelink_ci.Manifest.{Library, Bytes}
use yuelink_ci.Manifest.Verify.{verify_historical_archive}

-- What `git` answers in the source checkout: `git rev-parse`, and `git merge-base --is-ancestor`,
-- which fails by an exception.
pub record Git : Type 0 where
  pub rev_parse : String → Result String
  pub is_ancestor : String → String → Result (Unit {0})

abbrev pub exact_sha : Option Json → Result String
exact_sha (some (str s)) = do
  raise_if (not (is_hex_of_length 40 s)) "signed contract baseline must be an exact source SHA"
  ok s
exact_sha v = err (value_error "signed contract baseline must be an exact source SHA")

unfoldable pub select_baseline : Library → Bytes → ℕ → Result String
select_baseline lib raw now = do
  manifest ← verify_historical_archive lib raw now
  exact_sha (get "sourceCommit" manifest)

unfoldable pub validate_baseline : Git → String → Result (Unit {0})
validate_baseline git baseline = do
  candidate ← git.rev_parse "HEAD"
  raise_if (baseline == candidate) "contract baseline is the candidate itself"
  commit ← git.rev_parse (baseline <> "^{commit}")
  raise_if (not (commit == baseline)) "contract baseline must identify a commit"
  git.is_ancestor baseline candidate
  tree ← git.rev_parse (baseline <> "^{tree}")
  candidate_tree ← git.rev_parse "HEAD^{tree}"
  raise_if (tree == candidate_tree) "contract baseline has the same tree as the candidate"

-- `main` with a source checkout or without one; what it prints is its value.
unfoldable pub main : Library → Bytes → ℕ → Option Git → Result String
main lib raw now source = do
  baseline ← select_baseline lib raw now
  elim source [ none ↦ ok baseline | some git ↦ do validate_baseline git baseline; ok baseline ]
