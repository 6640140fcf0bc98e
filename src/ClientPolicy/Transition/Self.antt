-- ===== src/ClientPolicy/Transition/Self.antt =====
-- A validated policy may follow itself.
use yuelink_ci.Prelude.{◌≡◌, refl, false, List, [], ◌∷◌, none, some, map, All}
use yuelink_ci.Prelude.{Distinct, contains, arith, ==_self, string_eq, nat_eq, pair_eq}
use yuelink_ci.Prelude.Result.{ok}
use yuelink_ci.Json.{Json}
use yuelink_ci.ClientPolicy.{Library, Identity, Release, Policy, identity}
use yuelink_ci.ClientPolicy.Fields.{require}
use yuelink_ci.ClientPolicy.Validate.{validate}
use yuelink_ci.ClientPolicy.Valid.Accepted.{validate-IsValid}
use yuelink_ci.ClientPolicy.Transition.{existing, check_unchanged, check_successor}
use yuelink_ci.ClientPolicy.Transition.{validate_transition}
use yuelink_ci.ClientPolicy.Transition.Laws.{IsKept, IsKept-check_history}

existing-fresh :
    (rs : List Release) (i : Identity) → contains (map identity rs) i ≡ false → existing rs i ≡ none
unfolding existing
existing-fresh [] i h = refl
existing-fresh (r ∷ rs) i h = ground (arith, existing-fresh rs i)

abbrev IsFound : List Release → Release → Type 0
IsFound rs r = existing rs (identity r) ≡ some r

IsFound-cons : (x : Release) (rs l : List Release) → All (IsFound rs) l → All (IsFound (x ∷ rs)) l
unfolding existing
IsFound-cons x rs [] h = tt
IsFound-cons x rs (r ∷ l) h = (rw h.0, IsFound-cons x rs l h.1)

IsFound-self : (rs : List Release) → Distinct (map identity rs) → All (IsFound rs) rs
unfolding existing
IsFound-self [] h = tt
IsFound-self (r ∷ rs) h =
    (rw (existing-fresh rs (identity r) h.0, ==_self), IsFound-cons r rs rs (IsFound-self rs h.1))

IsFound-IsKept : (rs l : List Release) → All (IsFound rs) l → All (IsKept rs) l
IsFound-IsKept rs [] h = tt
IsFound-IsKept rs (r ∷ l) h = ((r, h.0, ground arith), IsFound-IsKept rs l h.1)

-- A policy that `validate` accepted passes `validate_transition` from itself.
pub validate_transition_self :
    (lib : Library) (policy published_at : Json) (p : Policy)
    → validate lib policy published_at ≡ ok p
    → validate_transition lib (some p) (some p) ≡ ok tt
unfolding validate_transition check_successor check_unchanged require
validate_transition_self lib policy published_at p h =
    let (published, stamped, valid) = validate-IsValid lib policy published_at p h in
    let history =
      IsKept-check_history p.releases p.releases
        (IsFound-IsKept p.releases p.releases (IsFound-self p.releases valid.identified)) in
    ground arith
