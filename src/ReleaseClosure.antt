-- ===== src/ReleaseClosure.antt =====
-- scripts/verify-release-closure.py: the files of a release against its signed manifest.
pub mod Sums
pub mod Verify
use yuelink_ci.Prelude.{ℕ, ◌*◌, String, List, [], ◌∷◌}
use yuelink_ci.Prelude.Result.{Result}
use yuelink_ci.Manifest
use yuelink_ci.Manifest.{Bytes}

-- What the source takes from Python's library and the network. `fetch` is the body that `urlopen`
-- gives for an address.
pub record Library : Type 0 where
  pub manifest : Manifest.Library
  pub urljoin : String → String → String
  pub splitlines : String → List String
  pub fetch : String → Result Bytes

-- A `hashlib` object: its states, and the text of its digest.
pub record Hash (S : Type 0) : Type 0 where
  pub fresh : S
  pub update : S → Bytes → S
  pub hexdigest : S → String

-- `hashlib.sha256(body).hexdigest()`
abbrev pub digest_of : {S : Type 0} → Hash S → Bytes → String
digest_of hash body = hash.hexdigest (hash.update hash.fresh body)

-- `CHUNK`
abbrev pub chunk : ℕ
chunk = 1024 * 1024

-- `MAX_SUMS_BYTES`
abbrev pub max_sums_bytes : ℕ
max_sums_bytes = 65536

-- The suffixes of the notices and records that every platform has.
abbrev pub notice_platforms : List String
notice_platforms = "android" ∷ "ios" ∷ "linux" ∷ "macos" ∷ "windows" ∷ []
