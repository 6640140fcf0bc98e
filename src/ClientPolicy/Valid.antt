-- ===== src/ClientPolicy/Valid.antt =====
-- What a policy that `validate` accepts satisfies, as its loops' sets are meant to ensure.
pub mod Reading
pub mod Accepted
use mathlib.Core.List.{flatten}
use yuelink_ci.Prelude.{ℕ, ◌≤◌, ◌<◌, ◌≡◌, String, true, false, List, [], ◌∷◌, Option, none, some}
use yuelink_ci.Prelude.{
  map, All, Distinct, contains, ◌==◌, string_eq, nat_eq, pair_eq, option_eq, Eq,
}
use yuelink_ci.ClientPolicy.{
  Identity, Certification, MaintainedLatest, Release, Policy, cores, identity,
}
use yuelink_ci.ClientPolicy.Validate.{release_date, maintained_by, combination}

-- If a certification names a core, the policy has a release of it dated no later than the test.
abbrev pub CoreIsReleased : List Release → Certification → Type 0
CoreIsReleased rs c =
    (i : Identity) → c.core ≡ some i → (d : ℕ) × (release_date rs i ≡ some d) × (d ≤ c.tested_at.at)

abbrev pub LatestIsDated : ℕ → ℕ → Option MaintainedLatest → Type 0
LatestIsDated released published none = Unit
LatestIsDated released published (some m) =
    (released ≤ m.reviewed_at.at)
    × (m.reviewed_at.at ≤ published)
    × (m.reviewed_at.at < m.expires_at.at)

pub record IsReleaseValid (published : ℕ) (r : Release) : Type 0 where
  pub released : r.released_at.at ≤ published
  pub certified :
      All (λ c. (r.released_at.at ≤ c.tested_at.at) × (c.tested_at.at ≤ published)) r.certifications
  pub combined : Distinct (map combination r.certifications)
  pub latest : LatestIsDated r.released_at.at published r.maintained_latest

pub record IsValid (published : ℕ) (p : Policy) : Type 0 where
  pub numbered : 0 < p.revision
  pub effective : p.effective_at.at ≤ published
  pub identified : Distinct (map identity p.releases)
  pub maintained : Distinct (flatten (map maintained_by p.releases))
  pub releases : All (IsReleaseValid published) p.releases
  pub cores_released : All (λ r. All (CoreIsReleased p.releases) r.certifications) p.releases
