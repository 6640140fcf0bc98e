-- ===== src/Manifest/Policy/Accepted.antt =====
-- What a manifest that `_validate_manifest_policy` accepts satisfies.
use yuelink_ci.Prelude.{ℕ, ◌+◌, ◌≤◌, ◌<◌, ◌≡◌, refl, ◌⊎◌, inl, inr, Bool-cases, String, true, false}
use yuelink_ci.Prelude.{List, [], ◌∷◌, Option, none, some, All, all, any, contains, arith}
use yuelink_ci.Prelude.{string_eq, nat_eq}
use yuelink_ci.Prelude.Result.{ok, value_or}
use yuelink_ci.Json.{Json, str, obj, Fields, end, get, keys}
use yuelink_ci.Manifest.{Library, expected_artifacts, max_lifetime, max_clock_skew}
use yuelink_ci.Manifest.Version.{Version, stable_version}
use yuelink_ci.Manifest.Checks.{utc_timestamp, equals_number, is_digest, same_text}
use yuelink_ci.Manifest.Checks.{check_evidence, check_promotion, evidence_keys, asset_url, is_url}
use yuelink_ci.Manifest.Checks.{check_asset, check_assets}
use yuelink_ci.Manifest.Policy.{text_of, check_head, check_times, check_platforms}
use yuelink_ci.Manifest.Policy.{validate_manifest_policy}

-- The platform's file is at its reviewed address, with a canonical SHA-256.
abbrev pub IsReviewedAsset : String → Fields → String × String → Type 0
IsReviewedAsset version platforms (platform, artifact) =
    (asset : Fields) × (get platform platforms ≡ some (obj asset))
    × (get "url" asset ≡ some (str (asset_url version artifact)))
    × (is_digest 64 (get "sha256" asset) ≡ true)

is_url-eq : (url : String) (v : Option Json) → is_url url v ≡ true → v ≡ some (str url)
is_url-eq url (some (str s)) h = ground arith
is_url-eq url v h = cc

check_asset-IsReviewedAsset :
    (version platform artifact : String) (platforms : Fields) (v : Option Json)
    → get platform platforms ≡ v
    → check_asset version platform artifact v ≡ ok tt
    → IsReviewedAsset version platforms (platform, artifact)
unfolding check_asset
check_asset-IsReviewedAsset version platform artifact platforms none e h = cc
check_asset-IsReviewedAsset version platform artifact platforms (some (obj asset)) e h = (
  asset,
  e,
  is_url-eq (asset_url version artifact) (get "url" asset) (ground arith),
  ground arith,
)
check_asset-IsReviewedAsset version platform artifact platforms (some v) e h = cc

check_assets-IsReviewedAsset :
    (version : String) (artifacts : List (String × String)) (platforms : Fields)
    → check_assets version artifacts platforms ≡ ok tt
    → All (IsReviewedAsset version platforms) artifacts
unfolding check_assets
check_assets-IsReviewedAsset version [] platforms h = tt
check_assets-IsReviewedAsset version ((platform, artifact) ∷ more) platforms h = (
  check_asset-IsReviewedAsset version platform artifact platforms (get platform platforms) refl
      (ground arith),
  check_assets-IsReviewedAsset version more platforms (ground arith),
)

-- The digests of the evidence, bound to one another.
pub record IsBound (lib : Library) (fs promotion : Fields) : Type 0 where
  pub source : is_digest 40 (get "sourceCommit" fs) ≡ true
  pub sums : is_digest 64 (get "sha256SumsSha256" fs) ≡ true
  pub promoted : get "promotionEvidence" fs ≡ some (obj promotion)
  pub same : same_text (get "sha256SumsSha256" promotion) (get "sha256SumsSha256" fs) ≡ true
  pub payloads : equals_number lib 19 (get "payloadCount" promotion) ≡ true

-- The three keys of the evidence are all missing, or all there and bound to one another.
abbrev pub IsWholeEvidence : Library → Fields → Type 0
IsWholeEvidence lib fs =
    (any (contains (keys fs)) evidence_keys ≡ false)
    ⊎ (all (contains (keys fs)) evidence_keys ≡ true)
      × ((promotion : Fields) × IsBound lib fs promotion)

abbrev fields_of : Option Json → Fields
fields_of (some (obj fs)) = fs
fields_of v = end

module _ (lib : Library) (fs : Fields) where
  promotion-IsBound :
      (v : Option Json)
      → get "promotionEvidence" fs ≡ v
      → is_digest 40 (get "sourceCommit" fs) ≡ true
      → is_digest 64 (get "sha256SumsSha256" fs) ≡ true
      → check_promotion lib v (get "sha256SumsSha256" fs) ≡ ok tt
      → (promotion : Fields) × IsBound lib fs promotion
  unfolding check_promotion
  promotion-IsBound (some (obj p)) e source sums h = (
    p,
    record {
      source = source;
      sums = sums;
      promoted = e;
      same = ground arith;
      payloads = ground arith;
    },
  )
  promotion-IsBound v e source sums h = cc

  check_evidence-IsWholeEvidence : check_evidence lib fs ≡ ok tt → IsWholeEvidence lib fs
  unfolding check_evidence
  check_evidence-IsWholeEvidence h = elim (Bool-cases (any (contains (keys fs)) evidence_keys)) [
    | inr without ↦ inl without
    | inl with_some ↦ inr (
      ground arith,
      promotion-IsBound (get "promotionEvidence" fs) refl (ground arith) (ground arith)
          (ground arith),
    )
  ]

-- The instants of a manifest: published before it expires, for 45 days at most, and not more than
-- six hours ahead of the clock.
pub record IsTimely (lib : Library) (fs : Fields) (now : ℕ) : Type 0 where
  pub published : ℕ
  pub expires : ℕ
  pub published_at : utc_timestamp lib (get "publishedAt" fs) ≡ ok published
  pub expires_at : utc_timestamp lib (get "expiresAt" fs) ≡ ok expires
  pub ordered : published < expires
  pub bounded : expires ≤ published + max_lifetime
  pub present : published ≤ now + max_clock_skew

check_times-IsTimely :
    (lib : Library) (fs : Fields) (now : ℕ) → check_times lib fs now ≡ ok tt → IsTimely lib fs now
unfolding check_times
check_times-IsTimely lib fs now h = record {
  published = value_or 0 (utc_timestamp lib (get "publishedAt" fs));
  expires = value_or 0 (utc_timestamp lib (get "expiresAt" fs));
  published_at = ground arith;
  expires_at = ground arith;
  ordered = ground arith;
  bounded = ground arith;
  present = ground arith;
}

-- A manifest that the policy admits at an instant.
pub record IsAdmitted (lib : Library) (fs : Fields) (now : ℕ) : Type 0 where
  pub version : Version
  pub stable : stable_version (get "version" fs) ≡ ok version
  pub platforms : Fields
  pub listed : get "platforms" fs ≡ some (obj platforms)
  pub assets : All (IsReviewedAsset (text_of (get "version" fs)) platforms) expected_artifacts
  pub evidence : IsWholeEvidence lib fs
  pub times : IsTimely lib fs now

check_platforms-assets :
    (version : String) (v : Option Json)
    → check_platforms version v ≡ ok tt
    → (platforms : Fields) × (v ≡ some (obj platforms))
      × All (IsReviewedAsset version platforms) expected_artifacts
unfolding check_platforms
check_platforms-assets version (some (obj platforms)) h = (
  platforms,
  refl,
  check_assets-IsReviewedAsset version expected_artifacts platforms (ground arith),
)
check_platforms-assets version v h = cc

-- A manifest that `_validate_manifest_policy` accepts has a canonical stable version, for each of
-- the nine platforms the file at the reviewed address of that version with a canonical SHA-256,
-- either no evidence or the whole bundle with its digests bound to one another, and a publication
-- that precedes its expiry by 45 days at most and the clock's time plus six hours.
pub validate_manifest_policy-IsAdmitted :
    (lib : Library) (fs : Fields) (now : ℕ)
    → validate_manifest_policy lib fs now ≡ ok tt
    → IsAdmitted lib fs now
unfolding validate_manifest_policy check_head
validate_manifest_policy-IsAdmitted lib fs now h =
    let (platforms, listed, assets) =
      check_platforms-assets (text_of (get "version" fs)) (get "platforms" fs) (ground arith) in
    record {
      version = value_or (0, 0, 0) (stable_version (get "version" fs));
      stable = ground arith;
      platforms = platforms;
      listed = listed;
      assets = assets;
      evidence = check_evidence-IsWholeEvidence lib fs (ground arith);
      times = check_times-IsTimely lib fs now (ground arith);
    }
