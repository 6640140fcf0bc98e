-- ===== src/ReleaseClosure/Verify.antt =====
-- `verify_release` and `main`.
pub mod Closed
use yuelink_ci.Prelude.{ℕ, zero, String, ◌<>◌, Bool, true, false, not, List, [], ◌∷◌}
use yuelink_ci.Prelude.{Option, none, some, ◌==◌, string_eq, if◌then◌else◌, rsplit_slash}
use yuelink_ci.Prelude.Result.{Result, ok, err, value_error, os_error, index_error}
use yuelink_ci.Prelude.Result.{◌>>=◌, ◌>>◌, raise_if}
use yuelink_ci.Prelude.Int.{pos}
use yuelink_ci.Json.{
  Json, null, bool, int, float, str, arr, obj, nil, Fields, end, field, item, get, is_text,
}
use yuelink_ci.Manifest.{Bytes}
use yuelink_ci.Manifest.Verify.{verify}
use yuelink_ci.ReleaseClosure.{Library, Hash, digest_of}
use yuelink_ci.ReleaseClosure.Sums.{read_url, sha256_of_url, Entry, as_text, as_object, parse_sums}

-- `next(iter(platforms.values()))["url"]`
unfoldable pub any_url : Fields → Result String
any_url end = err index_error
any_url (field name value more) = do spec ← as_object value; as_text (← item "url" spec)

abbrev pub before_slash : Option (String × String) → String → String
before_slash none url = url
before_slash (some (before, behind)) url = before

-- `any_url.rsplit("/", 1)[0] + "/"`
unfoldable pub base_of : String → String
base_of url = before_slash (rsplit_slash url) url <> "/"

abbrev pub sums_name : String → String
sums_name version = "YueLink-" <> (version <> "-SHA256SUMS")

module _ {S : Type 0} (hash : Hash S) (lib : Library) where
  -- `bool(value)`
  abbrev pub is_truthy : Json → Bool
  is_truthy null = false
  is_truthy (bool b) = b
  is_truthy (int (pos zero)) = false
  is_truthy (int n) = true
  is_truthy (float x) = not (lib.manifest.float_equals x 0)
  is_truthy (str s) = not (s == "")
  is_truthy (arr nil) = false
  is_truthy (arr vs) = true
  is_truthy (obj end) = false
  is_truthy (obj fs) = true

  -- The names of the files whose digest differs.
  unfoldable pub failures : String → List Entry → Result (List String)
  failures base [] = ok []
  failures base ((filename, want) ∷ more) = do
    (got, size) ← sha256_of_url hash lib (base <> filename)
    rest ← failures base more
    ok (if got == want then rest else filename ∷ rest)

  abbrev pub status_of : List String → ℕ
  status_of [] = 0
  status_of (f ∷ fs) = 1

  -- The exit status, after the anchor was found. What is formatted or split here is a text in every
  -- manifest that `verify` returns; another value is a `type_error`.
  unfoldable pub check_release : Fields → Json → Json → Json → Result ℕ
  unfolding any_url base_of failures
  check_release manifest version platforms anchor = do
    number ← as_text version
    listed ← as_object platforms
    url ← any_url listed
    body ← read_url lib (lib.urljoin url (sums_name number))
    raise_if (not (is_text (digest_of hash body) (some anchor))) "SHA256SUMS anchor differs"
    entries ← parse_sums lib body manifest
    failed ← failures (base_of url) entries
    ok (status_of failed)

  unfoldable pub verify_release : Fields → Result ℕ
  verify_release manifest = do
    version ← item "version" manifest
    platforms ← item "platforms" manifest
    elim (get "sha256SumsSha256" manifest) [
      | none ↦ ok 1
      | some anchor ↦
          if is_truthy anchor then check_release manifest version platforms anchor else ok 1
    ]

  -- `except (OSError, ValueError)` of `main`; any other exception leaves it.
  abbrev pub exit_status : Result ℕ → Result ℕ
  exit_status (ok n) = ok n
  exit_status (err (value_error m)) = ok 1
  exit_status (err (os_error m)) = ok 1
  exit_status (err e) = err e

  -- The command on one file that can be read, and the reviewed minimum.
  unfoldable pub main : Bytes → Option Bytes → ℕ → Result ℕ
  main raw floor_raw now = exit_status (verify lib.manifest raw floor_raw now >>= verify_release)
