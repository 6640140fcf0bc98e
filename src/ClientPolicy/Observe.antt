-- ===== src/ClientPolicy/Observe.antt =====
-- `observe`: how a client of a product stands at an instant. The clock is in UTC, in microseconds
-- as the policy's stamps are.
pub mod Laws
use yuelink_ci.Prelude.{
  ℕ, ◌+◌, ◌*◌, String, Bool, true, false, ◌&&◌, List, [], ◌∷◌, Option, none, some,
}
use yuelink_ci.Prelude.{any, ltb, leb, ◌==◌, if◌then◌else◌, string_eq, pair_eq, option_eq}
use yuelink_ci.ClientPolicy.{Identity, Certification, MaintainedLatest, Release, Policy, identity}

pub data Status : Type 0 where
  unverified supported transitional upgrade_required : Status

-- `timedelta(days=90)`
abbrev pub transition_time : ℕ
transition_time = 90 * 86400 * 1000000

-- `next((r for r in releases if ...), None)`
unfoldable pub first_release : List Release → Identity → Option Release
first_release [] i = none
first_release (r ∷ rs) i = if identity r == i then some r else first_release rs i

unfoldable pub is_certified : String → Option Identity → ℕ → List Certification → Bool
is_certified platform core now =
    any (λ c. c.platform == platform && c.core == core && leb c.tested_at.at now)

abbrev pub in_exception : ℕ → Option MaintainedLatest → Bool
in_exception now none = false
in_exception now (some m) = leb m.reviewed_at.at now && ltb now m.expires_at.at

unfoldable pub observe_release : String → Option Identity → ℕ → Option Release → Status
observe_release platform core now none = unverified
observe_release platform core now (some found) =
    if is_certified platform core now found.certifications
    then (if ltb now found.released_at.at
        then unverified
        else if in_exception now found.maintained_latest
        then supported
        else if ltb now (found.released_at.at + transition_time)
        then transitional
        else upgrade_required)
    else unverified

unfoldable pub observe : Policy → Identity → String → Option Identity → ℕ → Status
observe policy i platform core now =
    if ltb now policy.effective_at.at
    then unverified
    else observe_release platform core now (first_release policy.releases i)
