-- ===== src/Tests/Reads.antt =====
-- Commands for `validate` of scripts/gh-read-retry.py.
use yuelink_ci.Prelude.{◌≡◌, refl, String, ◌<>◌, false, List, [], ◌∷◌, ◌++◌, some, none}
use yuelink_ci.Prelude.{
  string_eq, nat_eq, list_eq, strip_prefix, starts_with, is_word_of, is_hex_of_length,
}
use yuelink_ci.Prelude.{◌==◌, true}
use yuelink_ci.Prelude.Result.{ok, err, os_error}
use yuelink_ci.ReadRetry.{
  FileSystem, repository, certificate_flags, verify_words, is_endpoint, is_run_id,
  is_attestation_name, arg, check_api, is_download, has_certificate_flags, is_verify, destination,
  step, validate,
}
use yuelink_ci.ReadRetry.Approved.{IsRead, validate-IsRead}
use yuelink_ci.ReadRetry.Private.{IsDestined, validate-IsPrivate}

abbrev no_files : FileSystem
no_files = record { lstat = λ p. err (os_error "ENOENT"); has_entries = λ p. ok false }

abbrev digest : String
digest = "0123456789abcdef0123456789abcdef01234567"

-- The verification of an artifact, with the flags of the certificate and without a format.
abbrev verify : List String
verify =
    verify_words
    ++ "a.tar" ∷ "--repo" ∷ repository ∷ certificate_flags
    ++ "--signer-workflow"
      ∷ (repository <> "/.github/workflows/source-attestation.yml")
      ∷ "--source-ref"
      ∷ "refs/heads/master"
      ∷ "--source-digest"
      ∷ digest
      ∷ "--signer-digest"
      ∷ digest
      ∷ "--deny-self-hosted-runners"
      ∷ []

validate_lem : validate no_files 21 verify ≡ some (ok none)
unfolding validate step check_api is_download has_certificate_flags is_verify arg is_endpoint
    is_run_id is_attestation_name destination strip_prefix starts_with is_word_of is_hex_of_length
    string_eq nat_eq list_eq
validate_lem = refl

validate-IsRead_example : IsRead verify
validate-IsRead_example = validate-IsRead no_files 21 verify none validate_lem

abbrev one_directory : FileSystem
one_directory = record {
  lstat = λ p. ok (record {
    device = 0;
    inode = 0;
    is_directory = p == "/tmp/proof";
    is_owned = true;
    mode = 16832;
  });
  has_entries = λ p. ok false;
}

abbrev download : List String
download =
    "gh"
    ∷ "run"
    ∷ "download"
    ∷ "42"
    ∷ "-R"
    ∷ repository
    ∷ "--name"
    ∷ ("yuelink-source-attestation-" <> digest)
    ∷ "--dir"
    ∷ "/tmp/proof"
    ∷ []

download_lem : validate one_directory 1 download ≡ some (ok (some "/tmp/proof"))
unfolding validate step check_api is_download has_certificate_flags is_verify arg is_endpoint
    is_run_id is_attestation_name destination strip_prefix starts_with is_word_of is_hex_of_length
    string_eq nat_eq list_eq
download_lem = refl

validate-IsPrivate_example : IsDestined one_directory download (some "/tmp/proof")
validate-IsPrivate_example =
    validate-IsPrivate one_directory 1 download (some "/tmp/proof") download_lem
