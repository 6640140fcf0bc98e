-- ===== src/ClientPolicy/Transition/Laws.antt =====
-- Transitions between policies compose, and a policy may follow itself.
use mathlib.Core.Option.{some-injective, none-ne-some}
use yuelink_ci.Prelude.{inl, inr, subst, Bool-cases, if◌then◌else◌}
use yuelink_ci.Prelude.{◌≤◌, ◌≡◌, refl, true, List, [], ◌∷◌, Option, none, some}
use yuelink_ci.Prelude.{All, arith, ◌==◌, string_eq, nat_eq, pair_eq}
use yuelink_ci.Prelude.Result.{ok}
use yuelink_ci.ClientPolicy.{Library, Identity, Release, Policy, identity}
use yuelink_ci.ClientPolicy.Fields.{require}
use yuelink_ci.ClientPolicy.Transition.{
  existing, same_origin, check_kept, check_history, check_unchanged,
}
use yuelink_ci.ClientPolicy.Transition.{check_successor, validate_transition}

-- The release is still listed, with the date and the evidence that it had.
abbrev pub IsKept : List Release → Release → Type 0
IsKept current old =
    (new : Release) × (existing current (identity old) ≡ some new) × (same_origin new old ≡ true)

check_kept-IsKept :
    (current : List Release) (old : Release) (o : Option Release)
    → existing current (identity old) ≡ o
    → check_kept old o ≡ ok tt
    → IsKept current old
unfolding check_kept require
check_kept-IsKept current old none e h = cc
check_kept-IsKept current old (some new) e h = (new, e, ground arith)

check_history-IsKept :
    (current olds : List Release) → check_history current olds ≡ ok tt → All (IsKept current) olds
unfolding check_history
check_history-IsKept current [] h = tt
check_history-IsKept current (old ∷ olds) h = (
  check_kept-IsKept current old (existing current (identity old)) refl (ground arith),
  check_history-IsKept current olds (ground arith),
)

pub IsKept-check_history :
    (current olds : List Release) → All (IsKept current) olds → check_history current olds ≡ ok tt
unfolding check_history check_kept require
IsKept-check_history current [] h = refl
IsKept-check_history current (old ∷ olds) h =
    let (new, found, same) = h.0 in rw (found, same) (IsKept-check_history current olds h.1)

-- What `existing` finds has the identity that was asked for, and what holds of all holds of it.
existing-identity :
    (rs : List Release) (i : Identity) (r : Release) → existing rs i ≡ some r → identity r ≡ i
unfolding existing
existing-identity [] i r h = cc
existing-identity (x ∷ rs) i r h = ground (arith, existing-identity rs i r)

existing-All :
    (P : Release → Type 0) (rs : List Release) (i : Identity) (r : Release)
    → All P rs
    → existing rs i ≡ some r
    → P r
unfolding existing
existing-All P [] i r all h = cc
existing-All P (x ∷ rs) i r all h = go (existing rs i) refl h (existing-All P rs i r all.1)
  where
    go :
        (o : Option Release)
        → existing rs i ≡ o
        → elim o [ some later ↦ some later | none ↦ if identity x == i then some x else none ]
          ≡ some r
        → (existing rs i ≡ some r → P r)
        → P r
    go none e k ih = elim (Bool-cases (identity x == i)) [
      | inl same ↦ subst P (some-injective x r (rw same at k)) all.0
      | inr other ↦ absurd (none-ne-some r (rw other at k))
    ]
    go (some later) e k ih = ih (ground arith)

same_origin_trans :
    (a b c : Release) → same_origin c b ≡ true → same_origin b a ≡ true → same_origin c a ≡ true
same_origin_trans a b c h k = ground arith

IsKept-trans :
    (top middle : List Release) (old : Release)
    → All (IsKept top) middle
    → IsKept middle old
    → IsKept top old
IsKept-trans top middle old all (new, found, same) =
    let (newest, found', same') = existing-All (IsKept top) middle (identity old) new all found in
    (
      newest,
      rw (← existing-identity middle (identity old) new found) found',
      same_origin_trans old new newest same' same,
    )

All-IsKept-trans :
    (top middle olds : List Release)
    → All (IsKept top) middle
    → All (IsKept middle) olds
    → All (IsKept top) olds
All-IsKept-trans top middle [] all kept = tt
All-IsKept-trans top middle (old ∷ olds) all kept =
    (IsKept-trans top middle old all kept.0, All-IsKept-trans top middle olds all kept.1)

-- A policy that may follow another: what the tests of `validate_transition` establish.
record IsSuccessor (lib : Library) (current previous : Policy) : Type 0 where
  revised : previous.revision ≤ current.revision
  unchanged :
      current.revision ≡ previous.revision → lib.canonical current.raw ≡ lib.canonical previous.raw
  effective : previous.effective_at.at ≤ current.effective_at.at
  kept : All (IsKept current.releases) previous.releases

module _ (lib : Library) where
  check_successor-IsSuccessor :
      (current previous : Policy)
      → check_successor lib current previous ≡ ok tt
      → IsSuccessor lib current previous
  unfolding check_successor check_unchanged require
  check_successor-IsSuccessor current previous h = record {
    revised = ground arith;
    unchanged = ground arith;
    effective = ground arith;
    kept = check_history-IsKept current.releases previous.releases (ground arith);
  }

  IsSuccessor-check_successor :
      (current previous : Policy)
      → IsSuccessor lib current previous
      → check_successor lib current previous ≡ ok tt
  unfolding check_successor check_unchanged require
  IsSuccessor-check_successor current previous s =
      let history = IsKept-check_history current.releases previous.releases s.kept in ground arith

  IsSuccessor-trans :
      (a b c : Policy) → IsSuccessor lib b a → IsSuccessor lib c b → IsSuccessor lib c a
  IsSuccessor-trans a b c s t = record {
    revised = omega (arith, s.revised, t.revised);
    unchanged = λ e. ground (arith, s.revised, t.revised, s.unchanged, t.unchanged);
    effective = omega (arith, s.effective, t.effective);
    kept = All-IsKept-trans c.releases b.releases a.releases t.kept s.kept;
  }

  -- Transitions compose: if b may follow a and c may follow b, then c may follow a, for policies and
  -- for manifests without one.
  pub validate_transition_trans :
      (a b c : Option Policy)
      → validate_transition lib b a ≡ ok tt
      → validate_transition lib c b ≡ ok tt
      → validate_transition lib c a ≡ ok tt
  unfolding validate_transition require
  validate_transition_trans none b c h k = refl
  validate_transition_trans (some a) none c h k = cc
  validate_transition_trans (some a) (some b) none h k = cc
  validate_transition_trans (some a) (some b) (some c) h k = IsSuccessor-check_successor c a (
      IsSuccessor-trans a b c (check_successor-IsSuccessor b a h)
        (check_successor-IsSuccessor c b k))
