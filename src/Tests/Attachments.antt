-- ===== src/Tests/Attachments.antt =====
-- Runs of scripts/attach-client-support-policy.py.
use yuelink_ci.Prelude.{◌≡◌, refl, some, [], ◌∷◌, split, strip_prefix, is_word_of}
use yuelink_ci.Prelude.{fits_template, is_hex_of_length, string_eq, nat_eq, list_eq, pair_eq}
use yuelink_ci.Prelude.{option_eq}
use yuelink_ci.Prelude.Result.{ok}
use yuelink_ci.Prelude.Int.{pos}
use yuelink_ci.Json.{Json, str, int, Fields, get, item, has_exact_keys}
use yuelink_ci.Json.Unique.{hook, reject_duplicate_keys}
use yuelink_ci.ClientPolicy.{repository}
use yuelink_ci.ClientPolicy.Fields
use yuelink_ci.ClientPolicy.Validate.{validate, read_core, read_certification, read_certifications}
use yuelink_ci.ClientPolicy.Validate.{
  read_latest, read_release, read_releases, check_cores, release_date,
}
use yuelink_ci.ClientPolicy.Transition.{validate_transition}
use yuelink_ci.Manifest.Version.{stable_version, version_ltb, is_component, decimal}
use yuelink_ci.Manifest.Checks.{strip_z, utc_timestamp}
use yuelink_ci.Manifest.Canonical.{canonical_json, insert_member, sort_members, join, codes_leb}
use yuelink_ci.Manifest.Policy.{read_compatibility, enforce_minimum}
use yuelink_ci.Manifest.Verify.{without, remove_prefix, signed_bytes, check_signature}
use yuelink_ci.Manifest.Verify.{verify_signed_manifest}
use yuelink_ci.Attachment.{with_item, previous_policy, attach}
use yuelink_ci.Attachment.Attached.{IsAttached, attach-IsAttached}
use yuelink_ci.Tests.Data.{array, members}
use yuelink_ci.Tests.Policies.{sha, day_one, day_two, release}
use yuelink_ci.Tests.Manifests.{library}

abbrev candidate : Fields
candidate = members (("version", str "1.2.4") ∷ ("publishedAt", str day_two) ∷ [])

abbrev source : Fields
source = members (
    ("schemaVersion", int (pos 1))
    ∷ ("policyRevision", int (pos 3))
    ∷ ("effectiveAt", str day_one)
    ∷ ("transitionDays", int (pos 90))
    ∷ ("enforcement", str "observe")
    ∷ ("unknownClient", str "unverified")
    ∷ ("releases", array (release ∷ []))
    ∷ [])

abbrev result : Fields
result = members (
    ("version", str "1.2.4")
    ∷ ("publishedAt", str day_two)
    ∷ ("compatibility", Json.obj (with_item source "policySourceSha256" (str sha)))
    ∷ [])

attached : attach library (Json.obj candidate) sha (some (Json.obj source)) [] (ok []) ≡ ok result
unfolding attach previous_policy with_item verify_signed_manifest check_signature signed_bytes
    without remove_prefix canonical_json sort_members insert_member join codes_leb hook
    reject_duplicate_keys enforce_minimum version_ltb validate_transition read_compatibility
    utc_timestamp strip_z stable_version is_component decimal validate read_releases read_release
    read_latest read_certifications read_certification read_core check_cores release_date repository
    get item has_exact_keys Fields.require Fields.shape Fields.digest Fields.version
    Fields.timestamp Fields.evidence Fields.is_plain_url Fields.is_public_url
    Fields.is_approved_path split strip_prefix is_word_of fits_template is_hex_of_length string_eq
    nat_eq list_eq pair_eq option_eq
attached = refl

attach-IsAttached_example :
    IsAttached library candidate sha (some (Json.obj source)) [] (ok []) result
attach-IsAttached_example =
    attach-IsAttached library candidate sha (some (Json.obj source)) [] (ok []) result attached
