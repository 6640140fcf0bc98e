-- ===== src/Tests/Closures.antt =====
-- Runs of scripts/verify-release-closure.py: a release of the nineteen files.
use yuelink_ci.Prelude.{◌≡◌, refl, ◌↔◌, Distinct, String, ◌<>◌, some}
use yuelink_ci.Prelude.{List, [], ◌∷◌, ◌++◌, map, split, is_hex_of_length, is_word_of}
use yuelink_ci.Prelude.{take_text, drop_text, rsplit_slash, ◌==◌, string_eq, nat_eq, list_eq}
use yuelink_ci.Prelude.{if◌then◌else◌}
use mathlib.Core.List.{append-nil, append_assoc}
use yuelink_ci.Prelude.Result.{ok}
use yuelink_ci.Prelude.Int.{pos}
use yuelink_ci.Json.{str, int, Fields, get, item, has_exact_keys}
use yuelink_ci.Json.Unique.{hook, reject_duplicate_keys}
use yuelink_ci.Manifest.{Bytes}
use yuelink_ci.Manifest.Version.{stable_version, version_ltb, is_component, decimal}
use yuelink_ci.Manifest.Checks.{strip_z, is_digest, utc_timestamp, check_evidence, check_promotion}
use yuelink_ci.Manifest.Checks.{check_asset, check_assets}
use yuelink_ci.Manifest.Canonical.{canonical_json, insert_member, sort_members, join, codes_leb}
use yuelink_ci.Manifest.Policy.{read_compatibility, check_head, check_times, check_platforms}
use yuelink_ci.Manifest.Policy.{validate_manifest_policy, enforce_minimum}
use yuelink_ci.Manifest.Verify.{without, remove_prefix, signed_bytes, check_signature}
use yuelink_ci.Manifest.Verify.{verify_signed_manifest, verify_historical_archive, verify}
use yuelink_ci.Manifest.Verify.Accepted.{IsVerified}
use yuelink_ci.ClientPolicy.Transition.{validate_transition}
use yuelink_ci.ReleaseClosure.{Library, Hash, digest_of}
use yuelink_ci.ReleaseClosure.Sums.{read_bounded, read_url, absorb, sha256_of_url, find_entry}
use yuelink_ci.ReleaseClosure.Sums.{
  Entry, name_of, match_entry, expected_files, check_bindings, parse_lines, parse_sums,
}
use yuelink_ci.ReleaseClosure.Sums.Parsed.{Lines, parse_lines_iff}
use yuelink_ci.ReleaseClosure.Sums.Streaming.{IsStreaming, sha256_of_url-whole}
use yuelink_ci.ReleaseClosure.Verify.{
  any_url, base_of, failures, check_release, verify_release, main,
}
use yuelink_ci.ReleaseClosure.Verify.Closed.{IsClosed, verify_release-IsClosed, main-IsClosed}
use yuelink_ci.Tests.Data.{object, members}
use yuelink_ci.Tests.Manifests.{sha, common, library_of}

abbrev pub commit : String
commit = "0123456789abcdef0123456789abcdef01234567"

-- The digest of the checksum file.
abbrev anchor : String
anchor = "ffff456789abcdef0123456789abcdef0123456789abcdef0123456789abcdef"

abbrev pub manifest : Fields
manifest = members (
    common
    ++ (("sourceCommit", str commit)
        ∷ ("sha256SumsSha256", str anchor)
        ∷ (
          "promotionEvidence",
          object (
              ("schemaVersion", int (pos 1))
              ∷ ("candidateSha256", str sha)
              ∷ ("sha256SumsSha256", str anchor)
              ∷ ("payloadBundleSha256", str sha)
              ∷ ("payloadCount", int (pos 19))
              ∷ []),
        )
        ∷ []))

-- The checksum file is one byte, and so is every other file.
abbrev hexdigest : Bytes → String
hexdigest [] = "empty"
hexdigest (b ∷ bs) = if b == 8 then anchor else sha

abbrev hash : Hash Bytes
hash = record { fresh = []; update = λ s b. s ++ b; hexdigest = hexdigest }

hash-IsStreaming : IsStreaming hash
hash-IsStreaming = record { update-nil = append-nil; update-append = append_assoc }

abbrev line_of : String → String
line_of name = sha <> ("  " <> name)

abbrev lines : List String
lines = map line_of (expected_files "1.2.3") ++ "" ∷ []

abbrev library : Library
library = record {
  manifest = library_of manifest;
  urljoin = λ base name. name;
  splitlines = λ text. lines;
  fetch = λ url. ok (if url == "YueLink-1.2.3-SHA256SUMS" then 8 ∷ [] else 7 ∷ []);
}

released : verify_release hash library manifest ≡ ok 0
unfolding verify_release check_release any_url base_of failures sha256_of_url absorb read_url
    read_bounded parse_sums parse_lines match_entry check_bindings find_entry is_hex_of_length
    take_text drop_text is_word_of rsplit_slash get item string_eq nat_eq
released = refl

closed : main hash library [] (some []) 0 ≡ ok 0
unfolding main verify verify_historical_archive verify_signed_manifest check_signature signed_bytes
    without remove_prefix canonical_json sort_members insert_member join codes_leb hook
    reject_duplicate_keys enforce_minimum version_ltb validate_transition validate_manifest_policy
    read_compatibility check_head check_evidence check_promotion check_times check_platforms
    check_assets check_asset is_digest is_hex_of_length utc_timestamp strip_z stable_version
    is_component decimal split get item has_exact_keys string_eq nat_eq list_eq verify_release
    check_release any_url base_of failures sha256_of_url absorb read_url read_bounded parse_sums
    parse_lines match_entry check_bindings find_entry take_text drop_text is_word_of rsplit_slash
closed = refl

verify_release-IsClosed_example : IsClosed hash library manifest
verify_release-IsClosed_example =
    verify_release-IsClosed hash library hash-IsStreaming manifest released

main-IsClosed_example :
    (fs : Fields) × IsVerified library.manifest [] (some []) 0 fs × IsClosed hash library fs
main-IsClosed_example = main-IsClosed hash library hash-IsStreaming [] (some []) 0 closed

sha256_of_url-whole_example : sha256_of_url hash library "a" ≡ ok (digest_of hash (7 ∷ []), 1)
unfolding string_eq
sha256_of_url-whole_example = sha256_of_url-whole hash hash-IsStreaming library "a" (7 ∷ []) refl

abbrev entries : List Entry
entries = ("a.txt", sha) ∷ []

parse_lines_iff_example :
    (parse_lines library [] (line_of "a.txt" ∷ []) ≡ ok entries)
    ↔ (Lines library (line_of "a.txt" ∷ []) entries × Distinct (map name_of entries))
parse_lines_iff_example = parse_lines_iff library (line_of "a.txt" ∷ []) entries
