-- ===== src/Manifest/Verify/Accepted.antt =====
-- What a manifest that `verify` returns satisfies.
use yuelink_ci.Prelude.{ℕ, ◌≤◌, ◌≡◌, refl, sym, ap, subst, ◌∙◌, String, true, false, [], ◌++◌}
use yuelink_ci.Prelude.{Option, none, some, all, contains, arith, string_eq, nat_eq}
use yuelink_ci.Prelude.Result.{Result, ok, err, value_or, >>=-eq-ok}
use yuelink_ci.Json.{Json, obj, Fields, end, get, keys, is_text}
use yuelink_ci.Json.Unique.{HasUniqueKeys, hook-HasUniqueKeys}
use yuelink_ci.ClientPolicy.{Policy}
use yuelink_ci.ClientPolicy.Transition.{validate_transition}
use yuelink_ci.Manifest.{
  Library, Bytes, current_key_id, current_public_key_b64, ed25519_spki_prefix,
}
use yuelink_ci.Manifest.{top_level_keys}
use yuelink_ci.Manifest.Version.{Version, stable_version, version_ltb}
use yuelink_ci.Manifest.Checks.{utc_timestamp}
use yuelink_ci.Manifest.Policy.{rewrap, read_compatibility, enforce_minimum}
use yuelink_ci.Manifest.Policy.Accepted.{IsAdmitted, validate_manifest_policy-IsAdmitted}
use yuelink_ci.Manifest.Verify.{
  decoded, parsed, as_object, signed_bytes, signature_text, check_signature, verify_signed_manifest,
}
use yuelink_ci.Manifest.Verify.{verify_historical_archive, verify}

decoded-eq-some : (o : Option String) (text : String) → decoded o ≡ ok text → o ≡ some text
decoded-eq-some none text h = cc
decoded-eq-some (some s) text h = cc

parsed-eq-some :
    (o : Option Json) (value : Json) → parsed o ≡ ok value → (o ≡ some value) × HasUniqueKeys value
parsed-eq-some none value h = cc
parsed-eq-some (some v) value h =
    let (same, unique) = (hook-HasUniqueKeys v value).0 h in
    (ap some (sym same), subst HasUniqueKeys (sym same) unique)

as_object-eq-obj : (value : Json) (fs : Fields) → as_object value ≡ ok fs → value ≡ obj fs
as_object-eq-obj (obj gs) fs h = cc
as_object-eq-obj value fs h = cc

module _ (lib : Library) where
  -- The bytes are a JSON text of this object, in which no key stands twice.
  pub record IsContent (raw : Bytes) (fs : Fields) : Type 0 where
    pub text : String
    pub encoded : lib.decode raw ≡ some text
    pub loaded : lib.loads text ≡ some (obj fs)
    pub unique : HasUniqueKeys (obj fs)

  -- The manifest names the pinned key, has no unknown key, and the pinned key verified its signature
  -- over the canonical text of all its other members.
  pub record IsAuthentic (fs : Fields) : Type 0 where
    pub known : all (contains top_level_keys) (keys fs) ≡ true
    pub named : is_text current_key_id (get "keyId" fs) ≡ true
    pub public_key : Bytes
    pub pinned : lib.b64decode current_public_key_b64 ≡ some public_key
    pub wire : String
    pub carried : signature_text (get "sig" fs) ≡ ok wire
    pub signature : Bytes
    pub decoded : lib.b64decode wire ≡ some signature
    pub message : Bytes
    pub covered : signed_bytes lib fs ≡ ok message
    pub verified : lib.pkeyutl (ed25519_spki_prefix ++ public_key) signature message ≡ 0

  abbrev of_option : Option Bytes → Bytes
  of_option none = []
  of_option (some b) = b

  check_signature-IsAuthentic :
      (fs : Fields)
      → all (contains top_level_keys) (keys fs) ≡ true
      → is_text current_key_id (get "keyId" fs) ≡ true
      → check_signature lib fs ≡ ok tt
      → IsAuthentic fs
  unfolding check_signature
  check_signature-IsAuthentic fs known named h =
      let wire : String = value_or "" (signature_text (get "sig" fs)) in
      record {
        known = known;
        named = named;
        public_key = of_option (lib.b64decode current_public_key_b64);
        pinned = ground arith;
        wire = wire;
        carried = ground arith;
        signature = of_option (lib.b64decode wire);
        decoded = ground arith;
        message = value_or [] (signed_bytes lib fs);
        covered = ground arith;
        verified = ground arith;
      }

  pub verify_signed_manifest-IsAuthentic :
      (raw : Bytes) (fs : Fields) → verify_signed_manifest lib raw ≡ ok fs → IsAuthentic fs
  unfolding verify_signed_manifest
  verify_signed_manifest-IsAuthentic raw fs h =
      check_signature-IsAuthentic fs (ground arith) (ground arith) (ground arith)

  pub verify_signed_manifest-IsContent :
      (raw : Bytes) (fs : Fields) → verify_signed_manifest lib raw ≡ ok fs → IsContent raw fs
  unfolding verify_signed_manifest
  verify_signed_manifest-IsContent raw fs h =
      let (text, one, h1) = >>=-eq-ok (decoded (lib.decode raw)) _ h in
      let (value, two, h2) = >>=-eq-ok (parsed (lib.loads text)) _ h1 in
      let (gs, three, h3) = >>=-eq-ok (as_object value) _ h2 in
      let same : gs ≡ fs = ground arith in
      let (loaded, unique) = parsed-eq-some (lib.loads text) value two in
      let whole : value ≡ obj fs = as_object-eq-obj value gs three ∙ ap obj same in
      record {
        text = text;
        encoded = decoded-eq-some (lib.decode raw) text one;
        loaded = loaded ∙ ap some whole;
        unique = subst HasUniqueKeys whole unique;
      }

  -- The manifest is no older than the floor, in version and in publication, and the policies that
  -- the two carry form a valid transition.
  pub record IsAbove (fs floor : Fields) : Type 0 where
    pub candidate : Version
    pub stable : stable_version (get "version" fs) ≡ ok candidate
    pub least : Version
    pub floor_stable : stable_version (get "version" floor) ≡ ok least
    pub not_below : version_ltb candidate least ≡ false
    pub published : ℕ
    pub published_at : utc_timestamp lib (get "publishedAt" fs) ≡ ok published
    pub floor_published : ℕ
    pub floor_published_at : utc_timestamp lib (get "publishedAt" floor) ≡ ok floor_published
    pub not_before : floor_published ≤ published
    pub policy : Option Policy
    pub floor_policy : Option Policy
    pub carried : read_compatibility lib fs ≡ ok policy
    pub floor_carried : read_compatibility lib floor ≡ ok floor_policy
    pub successor : validate_transition lib.policy policy floor_policy ≡ ok tt

  rewrap-eq-ok : (m : Result (Unit {0})) → rewrap m ≡ ok tt → m ≡ ok tt
  rewrap-eq-ok (ok u) h = refl
  rewrap-eq-ok (err e) h = cc

  pub enforce_minimum-IsAbove :
      (fs floor : Fields) → enforce_minimum lib fs floor ≡ ok tt → IsAbove fs floor
  unfolding enforce_minimum
  enforce_minimum-IsAbove fs floor h =
      let policy : Option Policy = value_or none (read_compatibility lib fs) in
      let floor_policy : Option Policy = value_or none (read_compatibility lib floor) in
      record {
        candidate = value_or (0, 0, 0) (stable_version (get "version" fs));
        stable = ground arith;
        least = value_or (0, 0, 0) (stable_version (get "version" floor));
        floor_stable = ground arith;
        not_below = ground arith;
        published = value_or 0 (utc_timestamp lib (get "publishedAt" fs));
        published_at = ground arith;
        floor_published = value_or 0 (utc_timestamp lib (get "publishedAt" floor));
        floor_published_at = ground arith;
        not_before = ground arith;
        policy = policy;
        floor_policy = floor_policy;
        carried = ground arith;
        floor_carried = ground arith;
        successor =
            rewrap-eq-ok (validate_transition lib.policy policy floor_policy) (ground arith);
      }

  -- The manifest that the bytes hold is authentic and admitted, and is above the authentic manifest
  -- that the bytes of the reviewed minimum hold.
  pub record IsVerified (raw : Bytes) (floor_raw : Option Bytes) (now : ℕ) (fs : Fields)
      : Type 0 where
    pub content : IsContent raw fs
    pub authentic : IsAuthentic fs
    pub admitted : IsAdmitted lib fs now
    pub floor_bytes : Bytes
    pub reviewed : floor_raw ≡ some floor_bytes
    pub floor : Fields
    pub floor_content : IsContent floor_bytes floor
    pub floor_authentic : IsAuthentic floor
    pub above : IsAbove fs floor

  -- A manifest that `verify` returns is what its bytes hold, is signed by the pinned key, is admitted
  -- by the policy at the instant of the call, and is no older than the floor, which is what the bytes
  -- of the reviewed minimum hold, and which the pinned key signed too.
  pub verify-IsAuthentic :
      (raw : Bytes) (floor_raw : Option Bytes) (now : ℕ) (fs : Fields)
      → verify lib raw floor_raw now ≡ ok fs
      → IsVerified raw floor_raw now fs
  unfolding verify verify_historical_archive
  verify-IsAuthentic raw none now fs h = absurd (ground arith)
  verify-IsAuthentic raw (some bytes) now fs h =
      let floor : Fields = value_or end (verify_signed_manifest lib bytes) in
      let signed : verify_signed_manifest lib raw ≡ ok fs = ground arith in
      let floor_signed : verify_signed_manifest lib bytes ≡ ok floor = ground arith in
      record {
        content = verify_signed_manifest-IsContent raw fs signed;
        authentic = verify_signed_manifest-IsAuthentic raw fs signed;
        admitted = validate_manifest_policy-IsAdmitted lib fs now (ground arith);
        floor_bytes = bytes;
        reviewed = refl;
        floor = floor;
        floor_content = verify_signed_manifest-IsContent bytes floor floor_signed;
        floor_authentic = verify_signed_manifest-IsAuthentic bytes floor floor_signed;
        above = enforce_minimum-IsAbove fs floor (ground arith);
      }
