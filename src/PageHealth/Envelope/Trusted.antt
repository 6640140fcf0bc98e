-- ===== src/PageHealth/Envelope/Trusted.antt =====
-- What a payload that `verify` returns satisfies.
use yuelink_ci.Prelude.{◌+◌, ◌≤◌, ◌≡◌, refl, String, ◌<>◌, true, List, []}
use yuelink_ci.Prelude.{Option, none, some, length, string_eq, nat_eq, arith, subst, sym}
use yuelink_ci.Prelude.Result.{Result, ok, err, value_or}
use yuelink_ci.Prelude.Int.{ℤ}
use yuelink_ci.Json.{Json, null, str, obj, Fields, end, item, has_exact_keys, is_text}
use yuelink_ci.Json.Unique.{HasUniqueKeys, hook-HasUniqueKeys}
use yuelink_ci.PageHealth.{Library, Bytes, algorithm, canonicalization, trusted_key_id}
use yuelink_ci.PageHealth.{max_envelope_bytes, ed25519_spki_prefix, top_level_keys, payload_keys}
use yuelink_ci.PageHealth.Policy.{exact_keys}
use yuelink_ci.PageHealth.Policy.Healthy.{IsHealthy, validate_policy-IsHealthy}
use yuelink_ci.PageHealth.Envelope.{has_prefix, parse_envelope, public_key_fingerprint}
use yuelink_ci.PageHealth.Envelope.{
  canonical_payload, check_trust, verify, verify_signature, wire_text,
}

module _ (lib : Library) where
  -- The bytes are the text of an object without repeated keys, of 64 KiB at most.
  pub record IsDocument (raw : Bytes) (envelope : Fields) : Type 0 where
    pub not_empty : 1 ≤ length raw
    pub bounded : length raw ≤ max_envelope_bytes
    pub text : String
    pub decoded : lib.decode raw ≡ some text
    pub loaded : lib.loads text ≡ some (obj envelope)
    pub unique : HasUniqueKeys (obj envelope)

  -- The key file is an Ed25519 key with the reviewed fingerprint, which the envelope names; it
  -- verified the envelope's signature, in canonical base64, over the canonical text of the payload,
  -- whose digest the envelope carries.
  pub record IsSigned (raw : Bytes) (envelope : Fields) (path : String) : Type 0 where
    pub der : Bytes
    pub written : lib.der path ≡ ok der
    pub sized : length der ≡ length ed25519_spki_prefix + 32
    pub is_ed25519 : has_prefix der ≡ true
    pub reviewed : "ed25519:sha256:" <> lib.sha256 der ≡ trusted_key_id
    pub named : item "keyId" envelope ≡ ok (str trusted_key_id)
    pub canonical : Bytes
    pub printed : lib.jq raw ≡ ok canonical
    pub digested : item "payloadSha256" envelope ≡ ok (str (lib.sha256 canonical))
    pub wire : String
    pub carried : item "signature" envelope ≡ ok (str wire)
    pub signature : Bytes
    pub decoded : lib.b64decode wire ≡ some signature
    pub encoded : lib.b64encode signature ≡ wire
    pub long : length signature ≡ 64
    pub verified : lib.pkeyutl path signature canonical ≡ 0

  pub record IsTrusted (raw : Bytes) (path : String) (payload : Fields) : Type 0 where
    pub envelope : Fields
    pub document : IsDocument raw envelope
    pub exact : has_exact_keys envelope top_level_keys ≡ true
    pub carried : item "payload" envelope ≡ ok (obj payload)
    pub payload_exact : has_exact_keys payload payload_keys ≡ true
    pub alg : item "alg" envelope ≡ ok (str algorithm)
    pub form : item "canonicalization" envelope ≡ ok (str canonicalization)
    pub signed : IsSigned raw envelope path

  is_text-eq : (t : String) (v : Json) → is_text t (some v) ≡ true → v ≡ str t
  is_text-eq t (str s) h = ground arith
  is_text-eq t v h = cc

  wire_text-eq : (v : Json) (wire : String) → wire_text v ≡ ok wire → v ≡ str wire
  wire_text-eq (str s) wire h = ground arith
  wire_text-eq v wire h = cc

  abbrev text_or_nil : Option String → String
  text_or_nil none = ""
  text_or_nil (some text) = text

  abbrev bytes_or_nil : Option Bytes → Bytes
  bytes_or_nil none = []
  bytes_or_nil (some bytes) = bytes

  abbrev json_or_null : Option Json → Json
  json_or_null none = null
  json_or_null (some value) = value

  parse_envelope-IsDocument :
      (raw : Bytes) (envelope : Fields)
      → parse_envelope lib raw ≡ ok (obj envelope)
      → IsDocument raw envelope
  unfolding parse_envelope
  parse_envelope-IsDocument raw envelope h =
      let text = text_or_nil (lib.decode raw) in
      let value = json_or_null (lib.loads text) in
      let (same, unique) = (hook-HasUniqueKeys value (obj envelope)).0 (ground arith) in
      record {
        not_empty = ground arith;
        bounded = ground arith;
        text = text;
        decoded = ground arith;
        loaded = ground arith;
        unique = subst HasUniqueKeys (sym same) unique;
      }

  check_trust-IsSigned :
      (raw : Bytes) (envelope : Fields) (path : String)
      → check_trust lib raw envelope path ≡ ok tt
      → IsSigned raw envelope path
  unfolding check_trust public_key_fingerprint canonical_payload verify_signature
  check_trust-IsSigned raw envelope path h =
      let der = value_or [] (lib.der path) in
      let canonical = value_or [] (lib.jq raw) in
      let wire = value_or "" (wire_text (value_or null (item "signature" envelope))) in
      let signature = bytes_or_nil (lib.b64decode wire) in
      record {
        der = der;
        written = ground arith;
        sized = ground arith;
        is_ed25519 = ground arith;
        reviewed = ground arith;
        named = ground (arith, is_text-eq trusted_key_id (value_or null (item "keyId" envelope)));
        canonical = canonical;
        printed = ground arith;
        digested = ground (
          arith,
          is_text-eq (lib.sha256 canonical) (value_or null (item "payloadSha256" envelope)),
        );
        wire = wire;
        carried = ground (arith, wire_text-eq (value_or null (item "signature" envelope)) wire);
        signature = signature;
        decoded = ground arith;
        encoded = ground arith;
        long = ground arith;
        verified = ground arith;
      }

  exact_keys-eq :
      (v : Json) (expected : List String) (fs : Fields)
      → exact_keys v expected ≡ ok fs
      → (v ≡ obj fs) × (has_exact_keys fs expected ≡ true)
  unfolding exact_keys
  exact_keys-eq (obj gs) expected fs h = ground arith
  exact_keys-eq v expected fs h = absurd (ground arith)

  verified-IsTrusted :
      (raw : Bytes) (path : String) (now : ℤ) (payload : Fields)
      → verify lib (ok raw) path now ≡ ok payload
      → IsTrusted raw path payload × IsHealthy payload lib now
  unfolding verify
  verified-IsTrusted raw path now payload h =
      let value = value_or null (parse_envelope lib raw) in
      let envelope = value_or end (exact_keys value top_level_keys) in
      let (is_object, exact) = exact_keys-eq value top_level_keys envelope (ground arith) in
      let carried = value_or null (item "payload" envelope) in
      let (is_payload, payload_exact) = exact_keys-eq carried payload_keys payload (ground arith) in
      (
        record {
          envelope = envelope;
          document = parse_envelope-IsDocument raw envelope (ground arith);
          exact = exact;
          carried = ground arith;
          payload_exact = payload_exact;
          alg = ground (arith, is_text-eq algorithm (value_or null (item "alg" envelope)));
          form = ground (
            arith,
            is_text-eq canonicalization (value_or null (item "canonicalization" envelope)),
          );
          signed = check_trust-IsSigned raw envelope path (ground arith);
        },
        (validate_policy-IsHealthy payload lib now).0 (ground arith),
      )

  -- A payload that `verify` returns stands in the envelope that was read, an object of at most
  -- 64 KiB without repeated keys; the reviewed key signed the canonical text that `jq` prints of it;
  -- and it is healthy at the clock.
  pub verify-IsTrusted :
      (file : Result Bytes) (path : String) (now : ℤ) (payload : Fields)
      → verify lib file path now ≡ ok payload
      → (raw : Bytes) × (file ≡ ok raw) × IsTrusted raw path payload × IsHealthy payload lib now
  verify-IsTrusted (ok raw) path now payload h =
      let (trusted, healthy) = verified-IsTrusted raw path now payload h in
      (raw, refl, trusted, healthy)
  verify-IsTrusted (err e) path now payload h = absurd (unfold verify in ground arith)
