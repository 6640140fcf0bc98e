-- ===== src/PageHealth.antt =====
-- scripts/verify-release-page-health.py: the signed health report of the release page.
pub mod Policy
pub mod Envelope
use yuelink_ci.Prelude.{ℕ, ◌*◌, String, Bool, Option, List, [], ◌∷◌}
use yuelink_ci.Prelude.Result.{Result}
use yuelink_ci.Prelude.Int.{ℤ, pos, negsuc}
use yuelink_ci.Json.{Json}

abbrev pub Bytes : Type 0
Bytes = List ℕ

-- What the source takes from Python's library and from programs. `is_decimal` is the class `\d` of
-- `re`; `epoch` is `strptime` in UTC as whole seconds since 1970; `is_file`, `der` and `pkeyutl` are
-- about the key file at a path: whether it is there, what `openssl pkey` writes of it, and the exit
-- status of `openssl pkeyutl -verify` with it for a signature and a message; `jq` is what
-- `jq -cjS .payload` prints. `none` stands for the error that the source handles.
pub record Library : Type 0 where
  pub decode : Bytes → Option String
  pub loads : String → Option Json
  pub b64decode : String → Option Bytes
  pub b64encode : Bytes → String
  pub sha256 : Bytes → String
  pub is_decimal : ℕ → Bool
  pub epoch : String → Option ℤ
  pub is_file : String → Bool
  pub der : String → Result Bytes
  pub pkeyutl : String → Bytes → Bytes → ℕ
  pub jq : Bytes → Result Bytes

abbrev pub algorithm : String
algorithm = "Ed25519"

abbrev pub canonicalization : String
canonicalization = "jq-cjS-v1"

abbrev pub probe_id : String
probe_id = "yue-to-download-v1"

abbrev pub release_url : String
release_url = "https://yue.to/download.html"

abbrev pub public_url : String
public_url = "https://yuetong.app/health/yue-to-download.json"

abbrev pub trusted_key_id : String
trusted_key_id = "ed25519:sha256:8cab652c26734789d428b6f1aab8827e461719a52ab038d9b70f48a5596f796d"

-- `MAX_AGE_SECONDS`
abbrev pub max_age : ℤ
max_age = pos (15 * 60)

-- `-MAX_FUTURE_SKEW_SECONDS`
abbrev pub min_age : ℤ
min_age = negsuc 119

-- `MAX_FUTURE_SKEW_SECONDS`
abbrev pub max_future_skew : ℤ
max_future_skew = pos (2 * 60)

abbrev pub max_envelope_bytes : ℕ
max_envelope_bytes = 64 * 1024

abbrev pub min_body_bytes : ℕ
min_body_bytes = 1024

abbrev pub max_body_bytes : ℕ
max_body_bytes = 1024 * 1024

abbrev pub max_latency_ms : ℕ
max_latency_ms = 20000

-- `ED25519_SPKI_PREFIX`
abbrev pub ed25519_spki_prefix : Bytes
ed25519_spki_prefix =
    0x30 ∷ 0x2a ∷ 0x30 ∷ 0x05 ∷ 0x06 ∷ 0x03 ∷ 0x2b ∷ 0x65 ∷ 0x70 ∷ 0x03 ∷ 0x21 ∷ 0x00 ∷ []

abbrev pub top_level_keys : List String
top_level_keys =
    "alg" ∷ "canonicalization" ∷ "keyId" ∷ "payload" ∷ "payloadSha256" ∷ "signature" ∷ []

abbrev pub payload_keys : List String
payload_keys =
    "schemaVersion" ∷ "probeId" ∷ "url" ∷ "finalUrl" ∷ "publicUrl" ∷ "checkedAt" ∷ "checkedAtUnix"
    ∷ "httpStatus" ∷ "bytes" ∷ "latencyMs" ∷ "contentSha256" ∷ "errorCode" ∷ "ok" ∷ "checks" ∷ []

abbrev pub check_keys : List String
check_keys =
    "http200" ∷ "exactFinalUrl" ∷ "boundedBody" ∷ "canonical" ∷ "openGraph" ∷ "yueLink"
    ∷ "challengeNegative" ∷ []
