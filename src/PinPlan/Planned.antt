-- ===== src/PinPlan/Planned.antt =====
-- What a plan says of the manifest behind it.
use yuelink_ci.Prelude.{ℕ, ◌+◌, ◌≤◌, ◌<◌, ◌≡◌, String, true, Option, some}
use yuelink_ci.Prelude.{length, string_eq, is_hex_of_length, arith}
use yuelink_ci.Prelude.Result.{ok, value_or}
use yuelink_ci.Json.{Json, null, str, Fields, end, get, item, is_text}
use yuelink_ci.Manifest.{Bytes}
use yuelink_ci.Manifest.Verify.{verify}
use yuelink_ci.Manifest.Verify.Accepted.{IsVerified, verify-IsAuthentic}
use yuelink_ci.PinPlan.{Library, Plan, max_bytes, six_hours, command_for, instant, plan}

module _ (lib : Library) where
  -- The plan is for the bytes of an authentic manifest of the version and commit asked for, which
  -- has not expired.
  pub record IsPlanned (raw : Bytes) (version source : String) (floor_raw : Option Bytes)
      (verified_at now : ℕ) (p : Plan) : Type 0 where
    pub bounded : length raw ≤ max_bytes
    pub manifest : Fields
    pub verified : IsVerified lib.manifest raw floor_raw verified_at manifest
    pub numbered : item "version" manifest ≡ ok (str version)
    pub committed : get "sourceCommit" manifest ≡ some (str source)
    pub exact : is_hex_of_length 40 source ≡ true
    pub expiry : Json
    pub expires_at : item "expiresAt" manifest ≡ ok expiry
    pub expires : ℕ
    pub ends : instant lib expiry ≡ ok expires
    pub not_expired : now < expires
    pub publication : Json
    pub published_at : item "publishedAt" manifest ≡ ok publication
    pub published : ℕ
    pub begins : instant lib publication ≡ ok published
    pub not_ahead : published ≤ now + six_hours
    pub version_planned : p.version ≡ version
    pub source_planned : p.source_commit ≡ source
    pub digest_planned : p.update_manifest_sha256 ≡ lib.sha256 raw
    pub command_planned : p.command ≡ command_for version source (lib.sha256 raw)

  is_text-eq : (t : String) (v : Option Json) → is_text t v ≡ true → v ≡ some (str t)
  is_text-eq t (some (str s)) h = ground arith
  is_text-eq t v h = cc

  -- A plan is for bytes of at most 1 MiB that hold an authentic manifest, which the policy admits and
  -- which is above the authentic manifest that the bytes of the reviewed minimum hold, for the version
  -- and the source commit that were asked for, which expires after the clock and was not published
  -- more than six hours after it; its command carries the version, the commit and the digest of those
  -- bytes.
  pub plan-IsPlanned :
      (raw : Bytes) (version source : String) (floor_raw : Option Bytes) (verified_at now : ℕ)
      (p : Plan)
      → plan lib raw version source floor_raw verified_at now ≡ ok p
      → IsPlanned raw version source floor_raw verified_at now p
  unfolding plan
  plan-IsPlanned raw version source floor_raw verified_at now p h =
      let manifest = value_or end (verify lib.manifest raw floor_raw verified_at) in
      let expiry = value_or null (item "expiresAt" manifest) in
      let publication = value_or null (item "publishedAt" manifest) in
      let number = value_or null (item "version" manifest) in
      record {
        bounded = ground arith;
        manifest = manifest;
        verified =
            verify-IsAuthentic lib.manifest raw floor_raw verified_at manifest (ground arith);
        numbered = ground (arith, is_text-eq version (some number));
        committed = ground (arith, is_text-eq source (get "sourceCommit" manifest));
        exact = ground arith;
        expiry = expiry;
        expires_at = ground arith;
        expires = value_or 0 (instant lib expiry);
        ends = ground arith;
        not_expired = ground arith;
        publication = publication;
        published_at = ground arith;
        published = value_or 0 (instant lib publication);
        begins = ground arith;
        not_ahead = ground arith;
        version_planned = ground arith;
        source_planned = ground arith;
        digest_planned = ground arith;
        command_planned = ground arith;
      }
