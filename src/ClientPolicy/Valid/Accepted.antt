-- ===== src/ClientPolicy/Valid/Accepted.antt =====
-- `validate` accepts only valid policies.
use mathlib.Core.Option.{some-injective}
use mathlib.Core.List.{flatten, append-nil, append_assoc}
use yuelink_ci.Prelude.{
  ℕ, ◌≤◌, ◌<◌, ◌≡◌, refl, ◌∙◌, subst, String, true, false, List, [], ◌∷◌, ◌++◌,
}
use yuelink_ci.Prelude.{Option, none, some, map, All, string_eq, nat_eq, pair_eq}
use yuelink_ci.Prelude.{option_eq, leb, arith, AreNew, AreNew-Distinct}
use yuelink_ci.Prelude.Result.{ok, value_or}
use yuelink_ci.Json.{Json, null, obj, item}
use yuelink_ci.ClientPolicy.{Library, Stamp, Identity, Certification, Release, Policy, identity}
use yuelink_ci.ClientPolicy.Fields.{require, shape, timestamp}
use yuelink_ci.ClientPolicy.Validate.{Seen, CoreRef, read_releases, maintained_by}
use yuelink_ci.ClientPolicy.Validate.{
  refs_of, refs_of_core, add_release, nothing_seen, release_date,
}
use yuelink_ci.ClientPolicy.Validate.{is_released_core, check_cores, bounded_list, validate}
use yuelink_ci.ClientPolicy.Valid.{CoreIsReleased, IsReleaseValid, IsValid}
use yuelink_ci.ClientPolicy.Valid.Reading.{read_release-IsReadRelease}

AreNew-append :
    (seen xs ys : List String) → AreNew seen xs → AreNew (seen ++ xs) ys → AreNew seen (xs ++ ys)
AreNew-append seen [] ys h k = rw append-nil at k
AreNew-append seen (x ∷ xs) ys h k =
    (h.0, AreNew-append (seen ++ x ∷ []) xs ys h.1 (rw append_assoc k))

all_refs : List Release → List CoreRef
all_refs [] = []
all_refs (r ∷ rs) = refs_of r.certifications ++ all_refs rs

module _ (lib : Library) (published : ℕ) where
  record AreReadReleases (seen : Seen) (rs : List Release) (refs : List CoreRef) : Type 0 where
    valid : All (IsReleaseValid published) rs
    identified : AreNew seen.identities (map identity rs)
    maintained : AreNew seen.maintained (flatten (map maintained_by rs))
    referred : refs ≡ seen.core_refs ++ all_refs rs

  read_releases-AreReadReleases :
      (seen : Seen) (vs : List Json) (rs : List Release) (refs : List CoreRef)
      → read_releases lib published seen vs ≡ ok (rs, refs)
      → AreReadReleases seen rs refs
  unfolding read_releases flatten all_refs
  read_releases-AreReadReleases seen [] [] refs h = record {
    valid = tt;
    identified = tt;
    maintained = tt;
    referred = rw append-nil (ground arith);
  }
  read_releases-AreReadReleases seen [] (r ∷ rs) refs h = cc
  read_releases-AreReadReleases seen (v ∷ vs) [] refs h = absurd (ground arith)
  read_releases-AreReadReleases seen (v ∷ vs) (r ∷ rs) refs h =
      let one = read_release-IsReadRelease lib published seen v r (ground arith) in
      let more = read_releases-AreReadReleases (add_release seen r) vs rs refs (ground arith) in
      record {
        valid = (one.valid, more.valid);
        identified = (one.new, more.identified);
        maintained = AreNew-append seen.maintained (maintained_by r) _ one.latest more.maintained;
        referred =
            more.referred ∙ append_assoc seen.core_refs (refs_of r.certifications) (all_refs rs);
      }

abbrev RefIsReleased : List Release → CoreRef → Type 0
RefIsReleased rs (i, tested) = (d : ℕ) × (release_date rs i ≡ some d) × (d ≤ tested)

is_released_core-RefIsReleased :
    (rs : List Release) (ref : CoreRef) → is_released_core rs ref ≡ true → RefIsReleased rs ref
is_released_core-RefIsReleased rs (i, tested) h = go (release_date rs i) refl h
  where
    go :
        (o : Option ℕ)
        → release_date rs i ≡ o
        → elim o [ none ↦ false | some date ↦ leb date tested ] ≡ true
        → (d : ℕ) × (release_date rs i ≡ some d) × (d ≤ tested)
    go none e k = cc
    go (some d) e k = (d, e, ground arith)

check_cores-RefIsReleased :
    (rs : List Release) (refs : List CoreRef)
    → check_cores rs refs ≡ ok tt
    → All (RefIsReleased rs) refs
unfolding check_cores require
check_cores-RefIsReleased rs [] h = tt
check_cores-RefIsReleased rs (ref ∷ refs) h = (
  is_released_core-RefIsReleased rs ref (ground arith),
  check_cores-RefIsReleased rs refs (ground arith),
)

module _ (all_releases : List Release) where
  All-tail :
      (xs ys : List CoreRef)
      → All (RefIsReleased all_releases) (xs ++ ys)
      → All (RefIsReleased all_releases) ys
  All-tail [] ys h = h
  All-tail (x ∷ xs) ys h = All-tail xs ys h.1

  core-CoreIsReleased :
      (core : Option Identity) (tested : ℕ) (more : List CoreRef)
      → All (RefIsReleased all_releases) (refs_of_core core tested ++ more)
      → (i : Identity) → core ≡ some i
      → (d : ℕ) × (release_date all_releases i ≡ some d) × (d ≤ tested)
  core-CoreIsReleased none tested more h i e = cc
  core-CoreIsReleased (some j) tested more h i e =
      subst (λ k. (d : ℕ) × (release_date all_releases k ≡ some d) × (d ≤ tested))
        (some-injective j i e) h.0

  refs_of-CoreIsReleased :
      (cs : List Certification) (more : List CoreRef)
      → All (RefIsReleased all_releases) (refs_of cs ++ more)
      → All (CoreIsReleased all_releases) cs
  refs_of-CoreIsReleased [] more h = tt
  refs_of-CoreIsReleased (c ∷ cs) more h =
      let flat = rw append_assoc at h in
      (
        core-CoreIsReleased c.core c.tested_at.at (refs_of cs ++ more) flat,
        refs_of-CoreIsReleased cs more
            (All-tail (refs_of_core c.core c.tested_at.at) (refs_of cs ++ more) flat),
      )

  all_refs-CoreIsReleased :
      (rs : List Release)
      → All (RefIsReleased all_releases) (all_refs rs)
      → All (λ r. All (CoreIsReleased all_releases) r.certifications) rs
  unfolding all_refs
  all_refs-CoreIsReleased [] h = tt
  all_refs-CoreIsReleased (r ∷ rs) h = (
    refs_of-CoreIsReleased r.certifications (all_refs rs) h,
    all_refs-CoreIsReleased rs (All-tail (refs_of r.certifications) (all_refs rs) h),
  )

abbrev no_stamp : Stamp
no_stamp = record { text = ""; at = 0 }

module _ (lib : Library) (published_at : Json) where
  abbrev published : Stamp
  published = value_or no_stamp (timestamp lib published_at)

  validate-parts :
      (policy : Json) (p : Policy)
      → validate lib policy published_at ≡ ok p
      → (vs : List Json) × (refs : List CoreRef) × (timestamp lib published_at ≡ ok published)
        × (read_releases lib published.at nothing_seen vs ≡ ok (p.releases, refs))
        × (check_cores p.releases refs ≡ ok tt)
        × (0 < p.revision)
        × (p.effective_at.at ≤ published.at)
  unfolding validate require shape
  validate-parts (obj fs) p h =
      let vs : List Json = value_or [] (
        bounded_list (value_or null (item "releases" fs)) 256 "releases must be a bounded array") in
      (
        vs,
        (value_or ([], []) (read_releases lib published.at nothing_seen vs)).1,
        ground arith,
        ground arith,
        ground arith,
        ground arith,
        ground arith,
      )
  validate-parts v p h = cc

-- A policy that `validate` accepts for a manifest published at `published_at` has a positive
-- revision, takes effect no later than the publication, lists no release identity twice and no
-- product with two maintained exceptions; each release and each certification is dated between
-- its release and the publication, no certification combination stands twice in a release, an
-- exception expires after its review, and every core that a certification names has a release in
-- the policy no later than the test.
pub validate-IsValid :
    (lib : Library) (policy published_at : Json) (p : Policy)
    → validate lib policy published_at ≡ ok p
    → (published : Stamp) × (timestamp lib published_at ≡ ok published) × IsValid published.at p
unfolding all_refs
validate-IsValid lib policy published_at p h =
    let (vs, refs, stamped, read, checked, numbered, effective) =
      validate-parts lib published_at policy p h in
    let all =
      read_releases-AreReadReleases lib (published lib published_at).at nothing_seen vs p.releases
        refs read in
    (
      published lib published_at,
      stamped,
      record {
        numbered = numbered;
        effective = effective;
        identified = AreNew-Distinct [] (map identity p.releases) all.identified;
        maintained = AreNew-Distinct [] (flatten (map maintained_by p.releases)) all.maintained;
        releases = all.valid;
        cores_released =
            all_refs-CoreIsReleased p.releases p.releases
              (rw all.referred at (check_cores-RefIsReleased p.releases refs checked));
      },
    )
