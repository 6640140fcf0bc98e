-- ===== src/Tests/Reports.antt =====
-- Runs of scripts/verify-release-page-health.py.
use yuelink_ci.Prelude.{ℕ, zero, suc, ◌≡◌, refl, ◌↔◌, String, true, some}
use yuelink_ci.Prelude.{[], ◌∷◌, ◌++◌, is_digit, is_hex_of_length, strip_prefix, ◌==◌}
use yuelink_ci.Prelude.{string_eq, nat_eq, list_eq, if◌then◌else◌}
use yuelink_ci.Prelude.Result.{Result, ok}
use yuelink_ci.Prelude.Int.{pos, ◌-ℤ◌, int_eq}
use yuelink_ci.Json.{Json, str, int, bool, Fields, get, item, has_exact_keys}
use yuelink_ci.Json.Unique.{hook, reject_duplicate_keys}
use yuelink_ci.PageHealth.{
  Library, Bytes, trusted_key_id, release_url, public_url, ed25519_spki_prefix,
}
use yuelink_ci.PageHealth.Policy.{exact_keys, integer, fits_utc, checked_epoch}
use yuelink_ci.PageHealth.Policy.{validate_policy}
use yuelink_ci.PageHealth.Policy.Healthy.{IsHealthy, validate_policy-IsHealthy}
use yuelink_ci.PageHealth.Envelope.{ends_with_newline, public_key_fingerprint, canonical_payload}
use yuelink_ci.PageHealth.Envelope.{verify_signature, parse_envelope, check_trust, verify}
use yuelink_ci.PageHealth.Envelope.Trusted.{IsTrusted, verify-IsTrusted}
use yuelink_ci.Tests.Data.{object, members}

abbrev sha : String
sha = "0123456789abcdef0123456789abcdef0123456789abcdef0123456789abcdef"

abbrev zeros : ℕ → Bytes
zeros zero = []
zeros (suc n) = 0 ∷ zeros n

abbrev checks : Json
checks = object (
    ("http200", bool true)
    ∷ ("exactFinalUrl", bool true)
    ∷ ("boundedBody", bool true)
    ∷ ("canonical", bool true)
    ∷ ("openGraph", bool true)
    ∷ ("yueLink", bool true)
    ∷ ("challengeNegative", bool true)
    ∷ [])

abbrev payload : Fields
payload = members (
    ("schemaVersion", int (pos 1))
    ∷ ("probeId", str "yue-to-download-v1")
    ∷ ("url", str release_url)
    ∷ ("finalUrl", str release_url)
    ∷ ("publicUrl", str public_url)
    ∷ ("checkedAt", str "2026-10-01T00:00:00Z")
    ∷ ("checkedAtUnix", int (pos 1000))
    ∷ ("httpStatus", int (pos 200))
    ∷ ("bytes", int (pos 4096))
    ∷ ("latencyMs", int (pos 350))
    ∷ ("contentSha256", str sha)
    ∷ ("errorCode", str "none")
    ∷ ("ok", bool true)
    ∷ ("checks", checks)
    ∷ [])

abbrev envelope : Json
envelope = object (
    ("alg", str "Ed25519")
    ∷ ("canonicalization", str "jq-cjS-v1")
    ∷ ("keyId", str trusted_key_id)
    ∷ ("payload", Json.obj payload)
    ∷ ("payloadSha256", str sha)
    ∷ ("signature", str "signature")
    ∷ [])

abbrev library : Library
library = record {
  decode = λ raw. some "envelope";
  loads = λ text. some envelope;
  b64decode = λ s. some (zeros 64);
  b64encode = λ b. "signature";
  sha256 = λ b.
      if b == 1 ∷ []
      then sha
      else "8cab652c26734789d428b6f1aab8827e461719a52ab038d9b70f48a5596f796d";
  is_decimal = is_digit;
  epoch = λ s. some (pos 1000);
  is_file = λ path. path == "key.pem";
  der = λ path. ok (ed25519_spki_prefix ++ zeros 32);
  pkeyutl = λ path signature message. if message == 1 ∷ [] then 0 else 1;
  jq = λ raw. ok (1 ∷ []);
}

-- Fifteen minutes after the report.
healthy : validate_policy library payload (pos 1900) ≡ ok tt
unfolding validate_policy exact_keys integer fits_utc checked_epoch is_hex_of_length ◌-ℤ◌ int_eq get
    item has_exact_keys string_eq nat_eq
healthy = refl

trusted : verify library (ok (7 ∷ [])) "key.pem" (pos 1900) ≡ ok payload
unfolding verify parse_envelope check_trust public_key_fingerprint canonical_payload
    verify_signature ends_with_newline strip_prefix hook reject_duplicate_keys validate_policy
    exact_keys integer fits_utc checked_epoch is_hex_of_length ◌-ℤ◌ int_eq get item has_exact_keys
    string_eq nat_eq list_eq
trusted = refl

validate_policy-IsHealthy_example :
    (validate_policy library payload (pos 1900) ≡ ok tt) ↔ IsHealthy payload library (pos 1900)
validate_policy-IsHealthy_example = validate_policy-IsHealthy payload library (pos 1900)

verify-IsTrusted_example :
    (raw : Bytes) × (◌≡◌ {A = Result Bytes} (ok (7 ∷ [])) (ok raw))
    × IsTrusted library raw "key.pem" payload
    × IsHealthy payload library (pos 1900)
verify-IsTrusted_example =
    verify-IsTrusted library (ok (7 ∷ [])) "key.pem" (pos 1900) payload trusted
