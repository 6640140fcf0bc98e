-- ===== src/ClientPolicy.antt =====
-- scripts/lib/client_support_policy.py: the compatibility policy that a manifest may carry.
-- `validate` is modelled as the reader of a typed `Policy` from the JSON value that the source
-- checks and returns; the other functions take such a policy.
pub mod Fields
pub mod Validate
pub mod Valid
pub mod Transition
pub mod Observe
use yuelink_ci.Prelude.{
  ℕ, String, List, [], ◌∷◌, Option, none, some, ◌==◌, if◌then◌else◌, string_eq,
}
use yuelink_ci.Prelude.Result.{Result}
use yuelink_ci.Json.{Json}

-- What `urlsplit` gives.
pub record Url : Type 0 where
  pub scheme : String
  pub netloc : String
  pub path : String
  pub query : String
  pub fragment : String

-- The library functions that the policy code calls. `strptime` is
-- `datetime.strptime(s, '%Y-%m-%dT%H:%M:%SZ')` in microseconds since the year 1, with `none` for its
-- `ValueError`; `canonical` is `json.dumps` with sorted keys.
pub record Library : Type 0 where
  pub strptime : String → Option ℕ
  pub urlsplit : String → Result Url
  pub canonical : Json → String

-- A timestamp as it is written, and the instant, in microseconds.
pub record Stamp : Type 0 where
  pub text : String
  pub at : ℕ

pub record Evidence : Type 0 where
  pub url : String
  pub sha256 : String

-- A product and its version.
abbrev pub Identity : Type 0
Identity = String × String

pub record Certification : Type 0 where
  pub platform : String
  pub core : Option Identity
  pub tested_at : Stamp
  pub evidence : Evidence

pub record MaintainedLatest : Type 0 where
  pub reviewed_at : Stamp
  pub expires_at : Stamp
  pub evidence : Evidence

pub record Release : Type 0 where
  pub product : String
  pub version : String
  pub released_at : Stamp
  pub evidence : Evidence
  pub certifications : List Certification
  pub maintained_latest : Option MaintainedLatest

-- `raw` is the value that was read.
pub record Policy : Type 0 where
  pub raw : Json
  pub revision : ℕ
  pub effective_at : Stamp
  pub releases : List Release

abbrev pub identity : Release → Identity
identity r = (r.product, r.version)

-- `REPOSITORIES`
unfoldable pub repository : String → Option String
unfolding string_eq
repository product =
    if product == "mihomo"
    then some "MetaCubeX/mihomo"
    else if product == "sing-box"
    then some "SagerNet/sing-box"
    else if product == "clash-verge-rev"
    then some "clash-verge-rev/clash-verge-rev"
    else if product == "flclash"
    then some "chen08209/FlClash"
    else if product == "openclash"
    then some "vernesong/OpenClash"
    else if product == "metacubexd"
    then some "MetaCubeX/metacubexd"
    else if product == "zashboard"
    then some "Zephyruso/zashboard"
    else none

-- `CORES`
abbrev pub cores : List String
cores = "mihomo" ∷ "sing-box" ∷ []

-- `PLATFORMS`
abbrev pub platforms : List String
platforms = "android" ∷ "ios" ∷ "macos" ∷ "windows" ∷ "linux" ∷ "openwrt" ∷ "web" ∷ []

-- `POLICY_KEYS`
abbrev pub policy_keys : List String
policy_keys =
    "schemaVersion" ∷ "policyRevision" ∷ "effectiveAt" ∷ "transitionDays" ∷ "enforcement"
    ∷ "unknownClient" ∷ "policySourceSha256" ∷ "releases" ∷ []
