-- ===== src/Manifest.antt =====
-- scripts/verify-update-manifest.py: the signed update manifest, its policy and the replay floor.
pub mod Canonical
pub mod Version
pub mod Checks
pub mod Policy
pub mod Verify
use yuelink_ci.Prelude.{ℕ, String, Bool, List, [], ◌∷◌, ◌++◌, ◌*◌, Option}
use yuelink_ci.Prelude.Result.{Result}
use yuelink_ci.Prelude.Int.{ℤ}
use yuelink_ci.Json.{Json}
use yuelink_ci.ClientPolicy

abbrev pub Bytes : Type 0
Bytes = List ℕ

-- What the source takes from Python's library and from `openssl`. `loads` is `json.loads` before its
-- hook; `fromisoformat` gives the instant in microseconds since the year 1 and whether the zone is
-- UTC; `dumps` and `show` are `json.dumps` of a text and `str` of an integer; `float_equals` is `==`
-- of a float, given by its `repr`, and an integer; `pkeyutl` is the exit status of
-- `openssl pkeyutl -verify` for a key, a signature and a message. `none` stands for the error that
-- the source handles.
pub record Library : Type 0 where
  pub decode : Bytes → Option String
  pub loads : String → Option Json
  pub dumps : String → String
  pub show : ℤ → String
  pub encode : String → Result Bytes
  pub b64decode : String → Option Bytes
  pub pkeyutl : Bytes → Bytes → Bytes → ℕ
  pub strip : String → String
  pub fromisoformat : String → Option (ℕ × Bool)
  pub float_equals : String → ℕ → Bool
  pub policy : ClientPolicy.Library

abbrev pub signature_domain : String
signature_domain = "yueto:update-manifest:v1\n"

abbrev pub current_key_id : String
current_key_id = "update-manifest-2026-01"

abbrev pub current_public_key_b64 : String
current_public_key_b64 = "cE530BJZ2rpNcn5bNAduC/uaCfgU6JLJoGZdYV7uypE="

-- `ED25519_SPKI_PREFIX`
abbrev pub ed25519_spki_prefix : Bytes
ed25519_spki_prefix =
    0x30 ∷ 0x2a ∷ 0x30 ∷ 0x05 ∷ 0x06 ∷ 0x03 ∷ 0x2b ∷ 0x65 ∷ 0x70 ∷ 0x03 ∷ 0x21 ∷ 0x00 ∷ []

-- `REQUIRED_TOP_LEVEL_KEYS`
abbrev pub required_keys : List String
required_keys =
    "schemaVersion" ∷ "keyId" ∷ "version" ∷ "channel" ∷ "publishedAt" ∷ "expiresAt" ∷ "releaseUrl"
    ∷ "notes" ∷ "platforms" ∷ "sig" ∷ []

-- `OPTIONAL_TOP_LEVEL_KEYS`
abbrev pub optional_keys : List String
optional_keys =
    "compatibility" ∷ "notesEn" ∷ "sourceCommit" ∷ "sha256SumsSha256" ∷ "promotionEvidence" ∷ []

-- `TOP_LEVEL_KEYS`
abbrev pub top_level_keys : List String
top_level_keys = required_keys ++ optional_keys

-- `EXPECTED_PLATFORM_ARTIFACTS`
abbrev pub expected_artifacts : List (String × String)
expected_artifacts =
    ("android-arm64-v8a", "android-arm64-v8a.apk")
    ∷ ("android-armeabi-v7a", "android-armeabi-v7a.apk")
    ∷ ("android-x86_64", "android-x86_64.apk")
    ∷ ("android-universal", "android-universal.apk")
    ∷ ("ios", "ios.ipa")
    ∷ ("macos-universal", "macos-universal.dmg")
    ∷ ("windows-amd64-setup", "windows-amd64-setup.exe")
    ∷ ("windows-amd64-portable", "windows-amd64-portable.zip")
    ∷ ("linux-amd64-appimage", "linux-amd64.AppImage")
    ∷ []

abbrev pub asset_host : String
asset_host = "yuetong.app"

abbrev pub release_url : String
release_url = "https://yue.to/download.html"

-- `MAX_MANIFEST_LIFETIME`, in microseconds.
abbrev pub max_lifetime : ℕ
max_lifetime = 45 * 86400 * 1000000

-- `MAX_PUBLISH_CLOCK_SKEW`, in microseconds.
abbrev pub max_clock_skew : ℕ
max_clock_skew = 6 * 3600 * 1000000
