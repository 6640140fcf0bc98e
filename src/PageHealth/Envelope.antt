-- ===== src/PageHealth/Envelope.antt =====
-- `_public_key_fingerprint`, `_canonical_payload`, `_verify_signature` and `verify`.
pub mod Trusted
use yuelink_ci.Prelude.{ℕ, ◌+◌, String, ◌<>◌, Bool, true, false, not, ◌&&◌, ◌||◌, List, [], ◌∷◌}
use yuelink_ci.Prelude.{Option, none, some, leb, length, strip_prefix, ◌==◌, string_eq, nat_eq}
use yuelink_ci.Prelude.{if◌then◌else◌}
use yuelink_ci.Prelude.Result.{Exception, os_error, Result, ok, err, value_error, ◌>>=◌, ◌>>◌}
use yuelink_ci.Prelude.Result.{raise_if}
use yuelink_ci.Prelude.Int.{ℤ}
use yuelink_ci.Json.{Json, str, obj, Fields, item, is_text}
use yuelink_ci.Json.Unique.{hook}
use yuelink_ci.PageHealth.{Library, Bytes, algorithm, canonicalization, trusted_key_id}
use yuelink_ci.PageHealth.{max_envelope_bytes, ed25519_spki_prefix, top_level_keys, payload_keys}
use yuelink_ci.PageHealth.{check_keys}
use yuelink_ci.PageHealth.Policy.{exact_keys, validate_policy}

-- `der.startswith(ED25519_SPKI_PREFIX)`
abbrev pub has_prefix : Bytes → Bool
has_prefix der = elim (strip_prefix ed25519_spki_prefix der) [ none ↦ false | some rest ↦ true ]

-- `canonical.endswith(b"\n")`
unfoldable pub ends_with_newline : Bytes → Bool
unfolding nat_eq
ends_with_newline [] = false
ends_with_newline (b ∷ []) = b == 10
ends_with_newline (b ∷ c ∷ bs) = ends_with_newline (c ∷ bs)

abbrev pub is_empty : Bytes → Bool
is_empty [] = true
is_empty (b ∷ bs) = false

-- The file as it is read: a failure of the file system is a health error.
abbrev pub readable : Result Bytes → Result Bytes
readable (ok raw) = ok raw
readable (err (os_error m)) = err (value_error "cannot read health envelope")
readable (err e) = err e

abbrev pub decoded : Option String → Result String
decoded none = err (value_error "health envelope is not UTF-8")
decoded (some text) = ok text

abbrev pub parsed : Option Json → Result Json
parsed none = err (value_error "health envelope is not valid JSON")
parsed (some value) = hook value

abbrev pub wire_text : Json → Result String
wire_text (str s) = ok s
wire_text v = err (value_error "health envelope signature must be base64 text")

abbrev pub of_base64 : Option Bytes → Result Bytes
of_base64 none = err (value_error "health envelope signature encoding is invalid")
of_base64 (some bytes) = ok bytes

module _ (lib : Library) where
  unfoldable pub public_key_fingerprint : String → Result String
  public_key_fingerprint path = do
    raise_if (not (lib.is_file path)) "pinned public key is unavailable"
    der ← lib.der path
    raise_if (not (length der == length ed25519_spki_prefix + 32) || not (has_prefix der))
        "pinned public key is not an Ed25519 SubjectPublicKeyInfo"
    ok (lib.sha256 der)

  unfoldable pub canonical_payload : Bytes → Result Bytes
  canonical_payload raw = do
    canonical ← lib.jq raw
    raise_if (is_empty canonical || ends_with_newline canonical)
        "jq canonical payload is empty or newline-terminated"
    ok canonical

  unfoldable pub verify_signature : Bytes → Bytes → String → Result (Unit {0})
  verify_signature canonical signature path =
      raise_if (not (lib.pkeyutl path signature canonical == 0))
        "release-page health Ed25519 signature is invalid"

  -- The size, the text and the value of the envelope.
  unfoldable pub parse_envelope : Bytes → Result Json
  parse_envelope raw = do
    raise_if (not (leb 1 (length raw) && leb (length raw) max_envelope_bytes))
        "health envelope size is outside reviewed bounds"
    text ← decoded (lib.decode raw)
    parsed (lib.loads text)

  -- The anchor, the digest and the signature of the envelope.
  unfoldable pub check_trust : Bytes → Fields → String → Result (Unit {0})
  check_trust raw envelope path = do
    fingerprint ← public_key_fingerprint path
    raise_if (not (("ed25519:sha256:" <> fingerprint) == trusted_key_id))
        "pinned public key does not match the reviewed anchor"
    key_id ← item "keyId" envelope
    raise_if (not (is_text trusted_key_id (some key_id)))
        "health envelope keyId does not match the pinned key"
    canonical ← canonical_payload raw
    digest ← item "payloadSha256" envelope
    raise_if (not (is_text (lib.sha256 canonical) (some digest)))
        "health envelope payloadSha256 is invalid"
    wire ← wire_text (← item "signature" envelope)
    signature ← of_base64 (lib.b64decode wire)
    raise_if (not (length signature == 64) || not (lib.b64encode signature == wire))
        "health envelope signature is not canonical Ed25519 base64"
    verify_signature canonical signature path

  -- `file` is what reading the envelope gives; `now` is the clock, in seconds since 1970.
  unfoldable pub verify : Result Bytes → String → ℤ → Result Fields
  verify file path now = do
    raw ← readable file
    envelope ← exact_keys (← parse_envelope raw) top_level_keys
    payload ← exact_keys (← item "payload" envelope) payload_keys
    exact_keys (← item "checks" payload) check_keys >>= λ checks. ok tt
    alg ← item "alg" envelope
    raise_if (not (is_text algorithm (some alg))) "health envelope algorithm is not Ed25519"
    form ← item "canonicalization" envelope
    raise_if (not (is_text canonicalization (some form)))
        "health envelope canonicalization is not trusted"
    check_trust raw envelope path
    validate_policy lib payload now
    ok payload
