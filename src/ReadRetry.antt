-- ===== src/ReadRetry.antt =====
-- scripts/gh-read-retry.py: the commands that may be run and repeated. The file system is a parameter.
pub mod Approved
pub mod Ends
pub mod Private
pub mod Retryable
pub mod Execute
pub mod Run
use yuelink_ci.Prelude.{
  ℕ, zero, suc, ◌%◌, String, ◌<>◌, Bool, true, false, not, ◌&&◌, ◌||◌, List, [], ◌∷◌, ◌++◌,
}
use yuelink_ci.Prelude.{
  Option, none, some, length, take, drop, contains, codes, strip_prefix, is_digit, is_hex,
  is_letter, between, is_word_of, all, is_hex_of_length, starts_with,
}
use yuelink_ci.Prelude.{◌==◌, string_eq, nat_eq, list_eq, if◌then◌else◌}
use yuelink_ci.Prelude.Result.{Result, ok, err, value_error, ◌>>=◌, ◌>>◌, raise_if}

abbrev pub repository : String
repository = "onesyue/yuelink-ci"

-- `lstat` as far as the source reads it.
pub record Status : Type 0 where
  pub device : ℕ
  pub inode : ℕ
  pub is_directory : Bool
  pub is_owned : Bool
  pub mode : ℕ

-- `target.lstat()`, and whether `target.iterdir()` gives an entry.
pub record FileSystem : Type 0 where
  pub lstat : String → Result Status
  pub has_entries : String → Result Bool

-- [A-Za-z0-9._/?&=%:-]
abbrev pub is_endpoint_char : ℕ → Bool
is_endpoint_char c = is_letter c || is_digit c || contains (codes "._/?&=%:-") c

abbrev is_rest : Option (List ℕ) → Bool
is_rest none = false
is_rest (some rest) = is_word_of is_endpoint_char rest

-- The expression of an endpoint: the text behind one of the two repositories.
unfoldable pub is_endpoint : String → Bool
is_endpoint s =
    is_rest (strip_prefix (codes "repos/onesyue/yuelink/") (codes s))
    || is_rest (strip_prefix (codes "repos/onesyue/yuelink-ci/") (codes s))

-- [1-9][0-9]*
unfoldable pub is_run_id : List ℕ → Bool
is_run_id [] = false
is_run_id (c ∷ cs) = between b'1' b'9' c && all is_digit cs

abbrev is_hex_rest : Option (List ℕ) → Bool
is_hex_rest none = false
is_hex_rest (some rest) = length rest == 40 && all is_hex rest

unfoldable pub is_attestation_name : String → Bool
is_attestation_name s = is_hex_rest (strip_prefix (codes "yuelink-source-attestation-") (codes s))

-- `argv[n]`, where the source has tested the length.
unfoldable pub arg : ℕ → List String → String
arg n [] = ""
arg zero (a ∷ argv) = a
arg (suc n) (a ∷ argv) = arg n argv

abbrev pub secret_list : List String
secret_list =
    "gh" ∷ "secret" ∷ "list" ∷ "-R" ∷ repository ∷ "--json" ∷ "name" ∷ "--jq" ∷ ".[].name" ∷ []

abbrev pub certificate_flags : List String
certificate_flags =
    "--cert-oidc-issuer" ∷ "https://token.actions.githubusercontent.com" ∷ "--predicate-type"
    ∷ "https://slsa.dev/provenance/v1" ∷ []

abbrev pub identity_flags : List String
identity_flags =
    "--repo"
    ∷ repository
    ∷ "--signer-workflow"
    ∷ (repository <> "/.github/workflows/source-attestation.yml")
    ∷ "--source-ref"
    ∷ "refs/heads/master"
    ∷ []

abbrev pub verify_words : List String
verify_words = "gh" ∷ "attestation" ∷ "verify" ∷ []

unfoldable pub check_api : List String → Result (Option String)
check_api argv = do
  raise_if
      (not (length argv == 3 || length argv == 5)
        || not (is_endpoint (arg 2 argv))
        || length argv == 5 && not (arg 3 argv == "--jq"))
      "only a GET endpoint and optional --jq are allowed"
  ok none

unfoldable pub is_download : List String → Bool
is_download argv =
    length argv == 10
    && take 3 argv == ("gh" ∷ "run" ∷ "download" ∷ [])
    && is_run_id (codes (arg 3 argv))
    && take 3 (drop 4 argv) == ("-R" ∷ repository ∷ "--name" ∷ [])
    && is_attestation_name (arg 7 argv)
    && arg 8 argv == "--dir"

unfoldable pub has_certificate_flags : List String → Bool
has_certificate_flags argv =
    take 3 argv == verify_words && take 4 (drop 6 argv) == certificate_flags

unfoldable pub is_verify : List String → Bool
is_verify argv =
    length argv == 17
    && take 3 argv == verify_words
    && not (starts_with "-" (arg 3 argv))
    && take 6 (drop 4 argv) == identity_flags
    && arg 10 argv == "--source-digest"
    && arg 12 argv == "--signer-digest"
    && arg 11 argv == arg 13 argv
    && is_hex_of_length 40 (arg 11 argv)
    && drop 14 argv == ("--deny-self-hosted-runners" ∷ "--format" ∷ "json" ∷ [])

abbrev pub refused : Result (Option String)
refused = err (value_error "proof destination must be an empty private owned directory")

abbrev unless_busy : String → Bool → Result (Option String)
unless_busy target true = refused
unless_busy target false = ok (some target)

-- The destination of a download.
unfoldable pub destination : FileSystem → String → Result (Option String)
unfolding starts_with nat_eq
destination files target = do
  info ← files.lstat target
  if not (starts_with "/" target)
        || not info.is_directory
        || not info.is_owned
        || not (info.mode % 64 == 0)
      then refused
      else (files.has_entries target >>= unless_busy target)

-- What `validate` does with a command: it ends, or calls itself.
pub data Step : Type 0 where
  ended : Result (Option String) → Step
  again : List String → Step

unfoldable pub step : FileSystem → List String → Step
step files argv =
    if take 2 argv == ("gh" ∷ "api" ∷ [])
    then ended (check_api argv)
    else if argv == secret_list
    then ended (ok none)
    else if is_download argv
    then ended (destination files (arg 9 argv))
    else if has_certificate_flags argv
    then again (take 6 argv ++ drop 10 argv)
    else if is_verify argv
    then ended (ok none)
    else if length argv == 15 && arg 14 argv == "--deny-self-hosted-runners"
    then again (argv ++ "--format" ∷ "json" ∷ [])
    else ended (err (value_error "not an approved release read"))

-- `validate`, on fuel: `none` is that the fuel ran out.
unfoldable pub validate : FileSystem → ℕ → List String → Option (Result (Option String))
validate files zero argv = none
validate files (suc fuel) argv = elim (step files argv) [
  | ended result ↦ some result
  | again argv' ↦ validate files fuel argv'
]
