-- ===== src/Tests/Plans.antt =====
-- Runs of scripts/contract-baseline.py and scripts/reconcile-yuelink-pin.py.
use yuelink_ci.Prelude.{◌≡◌, refl, String, ◌<>◌, some, [], split, is_hex_of_length}
use yuelink_ci.Prelude.{◌==◌, string_eq, nat_eq, list_eq, if◌then◌else◌}
use yuelink_ci.Prelude.Result.{ok}
use yuelink_ci.Json.{get, item, has_exact_keys}
use yuelink_ci.Json.Unique.{hook, reject_duplicate_keys}
use yuelink_ci.ClientPolicy.Transition.{validate_transition}
use yuelink_ci.Manifest.Version.{stable_version, version_ltb, is_component, decimal}
use yuelink_ci.Manifest.Checks.{strip_z, is_digest, utc_timestamp, check_evidence, check_promotion}
use yuelink_ci.Manifest.Checks.{check_asset, check_assets}
use yuelink_ci.Manifest.Canonical.{canonical_json, insert_member, sort_members, join, codes_leb}
use yuelink_ci.Manifest.Policy.{read_compatibility, check_head, check_times, check_platforms}
use yuelink_ci.Manifest.Policy.{validate_manifest_policy, enforce_minimum}
use yuelink_ci.Manifest.Verify.{without, remove_prefix, signed_bytes, check_signature}
use yuelink_ci.Manifest.Verify.{verify_signed_manifest, verify_historical_archive, verify}
use yuelink_ci.Baseline.{Git, select_baseline, validate_baseline, main}
use yuelink_ci.Baseline.Selected.{IsSignedBaseline, IsBelow, main-IsSignedBaseline}
use yuelink_ci.PinPlan.{Library, Plan, command_for, replace_z, instant, plan}
use yuelink_ci.PinPlan.Planned.{IsPlanned, plan-IsPlanned}
use yuelink_ci.Tests.Manifests
use yuelink_ci.Tests.Manifests.{sha}
use yuelink_ci.Tests.Closures.{commit, manifest}

abbrev head : String
head = "89abcdef0123456789abcdef0123456789abcdef"

-- Two commits with trees of their own.
abbrev git : Git
git = record {
  rev_parse =
      λ s. ok (if s == "HEAD" then head else if s == commit <> "^{commit}" then commit else s);
  is_ancestor = λ a b. ok tt;
}

printed : main (Manifests.library_of manifest) [] 0 (some git) ≡ ok commit
unfolding main select_baseline validate_baseline verify_historical_archive verify_signed_manifest
    check_signature signed_bytes without remove_prefix canonical_json sort_members insert_member
    join codes_leb hook reject_duplicate_keys validate_manifest_policy read_compatibility check_head
    check_evidence check_promotion check_times check_platforms check_assets check_asset is_digest
    is_hex_of_length utc_timestamp strip_z stable_version is_component decimal split get item
    has_exact_keys string_eq nat_eq list_eq
printed = refl

main-IsSignedBaseline_example :
    IsSignedBaseline (Manifests.library_of manifest) 0 commit × IsBelow git commit
main-IsSignedBaseline_example =
    main-IsSignedBaseline (Manifests.library_of manifest) [] 0 git commit printed

abbrev library : Library
library = record { manifest = Manifests.library_of manifest; sha256 = λ raw. sha }

abbrev the_plan : Plan
the_plan = record {
  status = "PLAN_ONLY";
  version = "1.2.3";
  source_commit = commit;
  update_manifest_sha256 = sha;
  command = command_for "1.2.3" commit sha;
}

planned : plan library [] "1.2.3" commit (some []) 0 5 ≡ ok the_plan
unfolding plan instant replace_z verify enforce_minimum version_ltb validate_transition
    verify_historical_archive verify_signed_manifest check_signature signed_bytes without
    remove_prefix canonical_json sort_members insert_member join codes_leb hook
    reject_duplicate_keys validate_manifest_policy read_compatibility check_head check_evidence
    check_promotion check_times check_platforms check_assets check_asset is_digest is_hex_of_length
    utc_timestamp strip_z stable_version is_component decimal split get item has_exact_keys
    string_eq nat_eq list_eq
planned = refl

plan-IsPlanned_example : IsPlanned library [] "1.2.3" commit (some []) 0 5 the_plan
plan-IsPlanned_example = plan-IsPlanned library [] "1.2.3" commit (some []) 0 5 the_plan planned
