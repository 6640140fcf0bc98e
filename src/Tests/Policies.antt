-- ===== src/Tests/Policies.antt =====
-- Runs of scripts/lib/client_support_policy.py.
use yuelink_ci.Prelude.{
  ℕ, ◌+◌, ◌*◌, ◌≡◌, ◌≢◌, refl, String, ◌<>◌, Option, none, some, [], ◌∷◌, arith,
}
use yuelink_ci.Prelude.{◌==◌, string_eq, nat_eq, list_eq, pair_eq, option_eq, if◌then◌else◌}
use yuelink_ci.Prelude.{split, strip_prefix, is_word_of, fits_template, is_hex_of_length}
use yuelink_ci.Prelude.Result.{Result, ok}
use yuelink_ci.Prelude.Int.{pos}
use yuelink_ci.Json.{Json, str, int, null, item, has_exact_keys}
use yuelink_ci.ClientPolicy.{Url, Library, Stamp, Policy, repository}
use yuelink_ci.ClientPolicy.Fields
use yuelink_ci.ClientPolicy.Fields.{timestamp}
use yuelink_ci.ClientPolicy.Validate.{validate, read_core, read_certification, read_certifications}
use yuelink_ci.ClientPolicy.Validate.{
  read_latest, read_release, read_releases, check_cores, release_date,
}
use yuelink_ci.ClientPolicy.Valid.{IsValid}
use yuelink_ci.ClientPolicy.Valid.Accepted.{validate-IsValid}
use yuelink_ci.ClientPolicy.Transition.{validate_transition}
use yuelink_ci.ClientPolicy.Transition.Laws.{validate_transition_trans}
use yuelink_ci.ClientPolicy.Transition.Self.{validate_transition_self}
use yuelink_ci.ClientPolicy.Observe.{observe, unverified, transitional, upgrade_required}
use yuelink_ci.ClientPolicy.Observe.{first_release, is_certified, observe_release}
use yuelink_ci.ClientPolicy.Observe.Laws.{observe_forward}
use yuelink_ci.Tests.Data.{object, array}

abbrev pub day_one : String
day_one = "2026-10-01T00:00:00Z"

abbrev pub day_two : String
day_two = "2026-10-02T00:00:00Z"

abbrev day : ℕ
day = 86400000000

abbrev strptime : String → Option ℕ
strptime s = if s == day_one then some day else if s == day_two then some (day + day) else none

abbrev proof_path : String
proof_path = "/onesyue/yuelink-ci/blob/0123456789abcdef0123456789abcdef01234567/docs/proof.md"

abbrev release_path : String
release_path = "/MetaCubeX/mihomo/releases/tag/v1.2.3"

abbrev url_of : String → Url
url_of path = record {
  scheme = "https";
  netloc = "github.com";
  path = path;
  query = "";
  fragment = "";
}

-- The two addresses that the test policy has.
abbrev urlsplit : String → Result Url
urlsplit s =
    ok (url_of (if s == "https://github.com" <> proof_path then proof_path else release_path))

abbrev pub library : Library
library = record { strptime = strptime; urlsplit = urlsplit; canonical = λ v. "" }

abbrev pub sha : String
sha = "0123456789abcdef0123456789abcdef0123456789abcdef0123456789abcdef"

abbrev evidence_at : String → Json
evidence_at path = object (("url", str ("https://github.com" <> path)) ∷ ("sha256", str sha) ∷ [])

abbrev certification : Json
certification = object (
    ("platform", str "linux")
    ∷ ("core", null)
    ∷ ("testedAt", str day_two)
    ∷ ("evidence", evidence_at proof_path)
    ∷ [])

abbrev pub release : Json
release = object (
    ("product", str "mihomo")
    ∷ ("version", str "1.2.3")
    ∷ ("releasedAt", str day_one)
    ∷ ("evidence", evidence_at release_path)
    ∷ ("certifications", array (certification ∷ []))
    ∷ ("maintainedLatest", null)
    ∷ [])

abbrev pub document : Json
document = object (
    ("schemaVersion", int (pos 1))
    ∷ ("policyRevision", int (pos 3))
    ∷ ("effectiveAt", str day_one)
    ∷ ("transitionDays", int (pos 90))
    ∷ ("enforcement", str "observe")
    ∷ ("unknownClient", str "unverified")
    ∷ ("policySourceSha256", str sha)
    ∷ ("releases", array (release ∷ []))
    ∷ [])

abbrev stamp_one : Stamp
stamp_one = record { text = day_one; at = day }

abbrev stamp_two : Stamp
stamp_two = record { text = day_two; at = day + day }

abbrev policy : Policy
policy = record {
  raw = document;
  revision = 3;
  effective_at = stamp_one;
  releases =
      record {
        product = "mihomo";
        version = "1.2.3";
        released_at = stamp_one;
        evidence = record { url = "https://github.com" <> release_path; sha256 = sha };
        certifications =
            record {
              platform = "linux";
              core = none;
              tested_at = stamp_two;
              evidence = record { url = "https://github.com" <> proof_path; sha256 = sha };
            }
            ∷ [];
        maintained_latest = none;
      }
      ∷ [];
}

accepted : validate library document (str day_two) ≡ ok policy
unfolding validate read_releases read_release read_latest read_certifications read_certification
    read_core check_cores release_date repository item has_exact_keys Fields.require Fields.shape
    Fields.digest Fields.version Fields.timestamp Fields.evidence Fields.is_plain_url
    Fields.is_public_url Fields.is_approved_path split strip_prefix is_word_of fits_template
    is_hex_of_length string_eq nat_eq list_eq pair_eq option_eq
accepted = refl

validate-IsValid_example :
    (published : Stamp) × (timestamp library (str day_two) ≡ ok published)
    × IsValid published.at policy
validate-IsValid_example = validate-IsValid library document (str day_two) policy accepted

successor_of_itself : validate_transition library (some policy) (some policy) ≡ ok tt
successor_of_itself = validate_transition_self library document (str day_two) policy accepted

-- A manifest with the policy may follow one with it, which may follow one without.
validate_transition_trans_example : validate_transition library (some policy) none ≡ ok tt
unfolding validate_transition
validate_transition_trans_example =
    validate_transition_trans library none (some policy) (some policy) refl successor_of_itself

early : observe policy ("mihomo", "1.2.3") "linux" none (day + day) ≡ transitional
unfolding observe observe_release first_release is_certified string_eq pair_eq option_eq
early = refl

late : observe policy ("mihomo", "1.2.3") "linux" none (91 * day) ≡ upgrade_required
unfolding observe observe_release first_release is_certified string_eq pair_eq option_eq
late = refl

observe_forward_example :
    (observe policy ("mihomo", "1.2.3") "linux" none (91 * day) ≢ unverified
      → observe policy ("mihomo", "1.2.3") "linux" none (95 * day) ≢ unverified)
    × (observe policy ("mihomo", "1.2.3") "linux" none (91 * day) ≡ upgrade_required
        → observe policy ("mihomo", "1.2.3") "linux" none (95 * day) ≢ transitional)
observe_forward_example =
    observe_forward policy ("mihomo", "1.2.3") "linux" none (91 * day) (95 * day) (omega arith)
