-- ===== src/ClientPolicy/Observe/Laws.antt =====
-- Time moves an observation in one direction.
use yuelink_ci.Prelude.{ℕ, ◌≤◌, ◌≡◌, ◌≢◌, String, true, List, [], ◌∷◌, Option, none, some, arith}
use yuelink_ci.Prelude.{string_eq, pair_eq, option_eq}
use yuelink_ci.ClientPolicy.{Identity, Certification, Release, Policy}
use yuelink_ci.ClientPolicy.Observe.{unverified, transitional, upgrade_required}
use yuelink_ci.ClientPolicy.Observe.{first_release, is_certified, observe_release, observe}

is_certified_mono :
    (platform : String) (core : Option Identity) (now later : ℕ) (cs : List Certification)
    → now ≤ later
    → is_certified platform core now cs ≡ true
    → is_certified platform core later cs ≡ true
unfolding is_certified
is_certified_mono platform core now later [] le h = cc
is_certified_mono platform core now later (c ∷ cs) le h =
    ground (arith, is_certified_mono platform core now later cs le)

module _ (platform : String) (core : Option Identity) (now later : ℕ) (le : now ≤ later) where
  stays_observed :
      (o : Option Release)
      → observe_release platform core now o ≢ unverified
      → observe_release platform core later o ≢ unverified
  unfolding observe_release
  stays_observed none h = h
  stays_observed (some r) h =
      ground (arith, is_certified_mono platform core now later r.certifications le)

  stays_due :
      (o : Option Release)
      → observe_release platform core now o ≡ upgrade_required
      → observe_release platform core later o ≢ transitional
  unfolding observe_release
  stays_due none h = cc
  stays_due (some r) h = ground arith

-- As time passes, a client that is observed stays observed, and one that must upgrade never comes
-- back to the transition period.
pub observe_forward :
    (p : Policy) (i : Identity) (platform : String) (core : Option Identity) (now later : ℕ)
    → now ≤ later
    → (observe p i platform core now ≢ unverified → observe p i platform core later ≢ unverified)
      × (observe p i platform core now ≡ upgrade_required
          → observe p i platform core later ≢ transitional)
unfolding observe
observe_forward p i platform core now later le =
    let o = first_release p.releases i in
    let stays = stays_observed platform core now later le o in
    let due = stays_due platform core now later le o in (ground arith, ground arith)
