-- ===== src/Tests/Manifests.antt =====
-- Runs of scripts/verify-update-manifest.py over a small library: every address decodes to a fixed
-- text, and `openssl` accepts one signature.
use yuelink_ci.Prelude.{
  ℕ, zero, suc, ◌*◌, ◌≡◌, refl, ◌↔◌, String, ◌<>◌, Bool, true, false, Option, none, some,
}
use yuelink_ci.Prelude.{List}
use yuelink_ci.Prelude.{[], ◌∷◌, map, codes, ◌==◌, string_eq, nat_eq, list_eq, if◌then◌else◌}
use yuelink_ci.Prelude.{split, is_hex_of_length}
use yuelink_ci.Prelude.Result.{ok}
use yuelink_ci.Prelude.Int.{pos}
use yuelink_ci.Json.{Json, str, int, null, Fields, get, item, has_exact_keys}
use yuelink_ci.Json.Unique.{hook, reject_duplicate_keys, HasUniqueKeys, hook-HasUniqueKeys}
use yuelink_ci.Manifest.{Library, Bytes, current_public_key_b64, current_key_id, release_url}
use yuelink_ci.Manifest.{expected_artifacts}
use yuelink_ci.Manifest.Version.{stable_version, version_ltb, is_component, decimal}
use yuelink_ci.Manifest.Checks.{strip_z, is_digest, utc_timestamp, check_evidence}
use yuelink_ci.Manifest.Checks.{check_asset, check_assets, asset_url}
use yuelink_ci.Manifest.Canonical.{canonical_json, insert_member, sort_members, join, codes_leb}
use yuelink_ci.Manifest.Policy.{read_compatibility, check_head, check_times, check_platforms}
use yuelink_ci.Manifest.Policy.{validate_manifest_policy, enforce_minimum}
use yuelink_ci.Manifest.Verify.{without, remove_prefix, signed_bytes, check_signature}
use yuelink_ci.Manifest.Verify.{verify_signed_manifest, verify_historical_archive, verify}
use yuelink_ci.Manifest.Verify.Accepted.{IsVerified, verify-IsAuthentic}
use yuelink_ci.ClientPolicy.Transition.{validate_transition}
use yuelink_ci.Tests.Data.{object, members}
use yuelink_ci.Tests.Policies

abbrev pub zeros : ℕ → Bytes
zeros zero = []
zeros (suc n) = 0 ∷ zeros n

abbrev pub sha : String
sha = "0123456789abcdef0123456789abcdef0123456789abcdef0123456789abcdef"

abbrev asset : String × String → String × Json
asset (platform, artifact) =
    (platform, object (("url", str (asset_url "1.2.3" artifact)) ∷ ("sha256", str sha) ∷ []))

abbrev common_of : String → List (String × Json)
common_of version =
    ("schemaVersion", int (pos 1))
    ∷ ("keyId", str current_key_id)
    ∷ ("version", str version)
    ∷ ("channel", str "stable")
    ∷ ("publishedAt", str "2026-10-01T00:00:00Z")
    ∷ ("expiresAt", str "2026-10-31T00:00:00Z")
    ∷ ("releaseUrl", str release_url)
    ∷ ("notes", str "Notes")
    ∷ ("platforms", object (map asset expected_artifacts))
    ∷ ("sig", str "ed25519:signature")
    ∷ []

abbrev pub common : List (String × Json)
common = common_of "1.2.3"

abbrev pub fields : Fields
fields = members common

abbrev fromisoformat : String → Option (ℕ × Bool)
fromisoformat s =
    if s == "2026-10-01T00:00:00+00:00"
    then some (0, true)
    else if s == "2026-10-31T00:00:00+00:00"
    then some (30 * 86400 * 1000000, true)
    else none

-- Every file is the manifest that is given.
abbrev pub library_of : Fields → Library
library_of manifest = record {
  decode = λ raw. some "manifest";
  loads = λ text. some (Json.obj manifest);
  dumps = λ s. "\"" <> (s <> "\"");
  show = λ n. "1";
  encode = λ s. ok (codes s);
  b64decode = λ s. if s == current_public_key_b64 then some (zeros 32) else some (zeros 64);
  pkeyutl = λ key signature message. if signature == zeros 64 then 0 else 1;
  strip = λ s. s;
  fromisoformat = fromisoformat;
  float_equals = λ x n. false;
  policy = Policies.library;
}

abbrev pub library : Library
library = library_of fields

accepted : validate_manifest_policy library fields 0 ≡ ok tt
unfolding validate_manifest_policy read_compatibility check_head check_evidence check_times
    check_platforms check_assets check_asset is_digest is_hex_of_length utc_timestamp strip_z
    stable_version is_component decimal split get item has_exact_keys string_eq nat_eq
accepted = refl

-- The reviewed minimum, an older release in a file of one byte.
abbrev floor : Fields
floor = members (common_of "1.2.2")

abbrev two_files : Library
two_files = record library {
  decode = λ raw. if raw == [] then some "manifest" else some "floor";
  loads = λ text. if text == "floor" then some (Json.obj floor) else some (Json.obj fields);
}

verified : verify two_files [] (some (0 ∷ [])) 0 ≡ ok fields
unfolding verify verify_historical_archive verify_signed_manifest check_signature signed_bytes
    without remove_prefix canonical_json sort_members insert_member join codes_leb hook
    reject_duplicate_keys enforce_minimum version_ltb validate_transition validate_manifest_policy
    read_compatibility check_head check_evidence check_times check_platforms check_assets
    check_asset is_digest is_hex_of_length utc_timestamp strip_z stable_version is_component decimal
    split get item has_exact_keys string_eq nat_eq list_eq
verified = refl

verify-IsAuthentic_example : IsVerified two_files [] (some (0 ∷ [])) 0 fields
verify-IsAuthentic_example = verify-IsAuthentic two_files [] (some (0 ∷ [])) 0 fields verified

-- A key that stands twice, one object down.
abbrev doubled : Json
doubled = object (("a", object (("b", null) ∷ ("b", null) ∷ [])) ∷ [])

hook-HasUniqueKeys_example :
    (hook doubled ≡ ok doubled) ↔ ((doubled ≡ doubled) × HasUniqueKeys doubled)
hook-HasUniqueKeys_example = hook-HasUniqueKeys doubled doubled
