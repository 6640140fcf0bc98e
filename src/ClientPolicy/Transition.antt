-- ===== src/ClientPolicy/Transition.antt =====
-- `validate_transition`: which policy may follow another. Both policies have been validated.
pub mod Laws
pub mod Self
use yuelink_ci.Prelude.{String, Bool, true, false, ◌&&◌, List, [], ◌∷◌, Option, none, some, leb}
use yuelink_ci.Prelude.{◌==◌, if◌then◌else◌, string_eq, nat_eq, pair_eq}
use yuelink_ci.Prelude.Result.{Result, ok, ◌>>=◌, ◌>>◌}
use yuelink_ci.ClientPolicy.{Library, Identity, Release, Policy, identity}
use yuelink_ci.ClientPolicy.Fields.{require}

-- `{(r['product'], r['version']): r for r in releases}.get(i)`: the last entry of a key stays.
unfoldable pub existing : List Release → Identity → Option Release
existing [] i = none
existing (r ∷ rs) i =
    let last = existing rs i in
    elim last [ some later ↦ some later | none ↦ if identity r == i then some r else none ]

-- The same date, as it is written, and the same evidence.
abbrev pub same_origin : Release → Release → Bool
same_origin new old =
    new.released_at.text == old.released_at.text
    && new.evidence.url == old.evidence.url
    && new.evidence.sha256 == old.evidence.sha256

unfoldable pub check_kept : Release → Option Release → Result (Unit {0})
check_kept old none = require false "release history removed"
check_kept old (some new) = require (same_origin new old) "original release date/evidence changed"

-- The loop over the releases of the previous policy.
unfoldable pub check_history : List Release → List Release → Result (Unit {0})
check_history current [] = ok tt
check_history current (old ∷ olds) = do
  check_kept old (existing current (identity old))
  check_history current olds

unfoldable pub check_unchanged : Library → Policy → Policy → Result (Unit {0})
check_unchanged lib current previous =
    if current.revision == previous.revision
    then require (lib.canonical current.raw == lib.canonical previous.raw)
        "same policyRevision changed"
    else ok tt

unfoldable pub check_successor : Library → Policy → Policy → Result (Unit {0})
check_successor lib current previous = do
  require (leb previous.revision current.revision) "policy revision decreased"
  check_unchanged lib current previous
  require (leb previous.effective_at.at current.effective_at.at) "effectiveAt decreased"
  check_history current.releases previous.releases

unfoldable pub validate_transition : Library → Option Policy → Option Policy → Result (Unit {0})
validate_transition lib current none = ok tt
validate_transition lib none (some previous) =
    require false "cannot silently remove existing policy"
validate_transition lib (some current) (some previous) = check_successor lib current previous
