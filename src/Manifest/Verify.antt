-- ===== src/Manifest/Verify.antt =====
-- `_verify_signed_manifest`, `verify` and `verify_historical_archive`.
pub mod Accepted
use Prim.Native.Char.{code}
use yuelink_ci.Prelude.{ℕ, ◌<>◌, String, Bool, true, false, not, ◌&&◌, List, [], ◌∷◌, ◌++◌, Option}
use yuelink_ci.Prelude.{none, some, all, contains, length, codes, strip_prefix, ◌==◌}
use yuelink_ci.Prelude.{string_eq, nat_eq, if◌then◌else◌}
use yuelink_ci.Prelude.Result.{Result, ok, err, value_error, ◌>>=◌, ◌>>◌, raise_if}
use yuelink_ci.Json.{Json, str, obj, Fields, end, field, get, keys, is_text}
use yuelink_ci.Json.Unique.{hook}
use yuelink_ci.Manifest.{Library, Bytes, signature_domain, current_key_id, current_public_key_b64}
use yuelink_ci.Manifest.{ed25519_spki_prefix, required_keys, top_level_keys}
use yuelink_ci.Manifest.Canonical.{canonical_json}
use yuelink_ci.Manifest.Policy.{validate_manifest_policy, enforce_minimum}

-- `payload.pop("sig")`
unfoldable pub without : String → Fields → Fields
without k end = end
without k (field j v fs) = if k == j then fs else field j v (without k fs)

-- What follows the prefix of a text, as a text.
unfoldable pub remove_prefix : String → String → Option String
remove_prefix String.[] s = some s
remove_prefix (String.◌∷◌ c p) String.[] = none
remove_prefix (String.◌∷◌ c p) (String.◌∷◌ d s) =
    if code c == code d then remove_prefix p s else none

abbrev pub decoded : Option String → Result String
decoded none = err (value_error "manifest is not valid UTF-8")
decoded (some text) = ok text

abbrev pub parsed : Option Json → Result Json
parsed none = err (value_error "manifest is not valid JSON")
parsed (some value) = hook value

abbrev pub as_object : Json → Result Fields
as_object (obj fs) = ok fs
as_object v = err (value_error "manifest must be a JSON object")

-- `signature_wire`, behind its "ed25519:".
abbrev pub signature_text : Option Json → Result String
signature_text (some (str s)) = elim (remove_prefix "ed25519:" s) [
  | none ↦ err (value_error "manifest signature is missing")
  | some rest ↦ ok rest
]
signature_text v = err (value_error "manifest signature is missing")

abbrev of_base64 : Option Bytes → Result Bytes
of_base64 none = err (value_error "manifest signature encoding is invalid")
of_base64 (some bytes) = ok bytes

module _ (lib : Library) where
  -- The bytes that the signature covers.
  unfoldable pub signed_bytes : Fields → Result Bytes
  signed_bytes fs = do
    text ← canonical_json lib (obj (without "sig" fs))
    encoded ← lib.encode text
    ok (codes signature_domain ++ encoded)

  unfoldable pub check_signature : Fields → Result (Unit {0})
  check_signature fs = do
    wire ← signature_text (get "sig" fs)
    signature ← of_base64 (lib.b64decode wire)
    public_key ← of_base64 (lib.b64decode current_public_key_b64)
    raise_if (not (length signature == 64 && length public_key == 32))
        "manifest Ed25519 key or signature length is invalid"
    message ← signed_bytes fs
    raise_if (not (lib.pkeyutl (ed25519_spki_prefix ++ public_key) signature message == 0))
        "manifest signature is invalid"

  unfoldable pub verify_signed_manifest : Bytes → Result Fields
  verify_signed_manifest raw = do
    text ← decoded (lib.decode raw)
    value ← parsed (lib.loads text)
    fs ← as_object value
    raise_if (not (all (contains (keys fs)) required_keys)) "missing required keys"
    raise_if (not (all (contains top_level_keys) (keys fs))) "unknown top-level keys"
    raise_if (not (is_text current_key_id (get "keyId" fs))) "manifest signing key is not trusted"
    check_signature fs
    ok fs

  unfoldable pub verify_historical_archive : Bytes → ℕ → Result Fields
  verify_historical_archive raw now = do
    fs ← verify_signed_manifest raw
    validate_manifest_policy lib fs now
    ok fs

  -- `floor_raw` is the reviewed minimum, or `none` if it cannot be read.
  unfoldable pub verify : Bytes → Option Bytes → ℕ → Result Fields
  verify raw floor_raw now = do
    fs ← verify_historical_archive raw now
    elim floor_raw [
      | none ↦ err (value_error "reviewed minimum manifest is unavailable")
      | some bytes ↦ do floor ← verify_signed_manifest bytes; enforce_minimum lib fs floor; ok fs
    ]
