-- ===== src/ClientPolicy/Valid/Reading.antt =====
-- The readers of `validate` give what `IsReleaseValid` asks of one release.
use yuelink_ci.Prelude.{
  ℕ, ◌≤◌, ◌≡◌, refl, ap, ◌∙◌, String, false, List, [], ◌∷◌, ◌++◌, Option, none, some,
}
use yuelink_ci.Prelude.{
  map, All, contains, string_eq, pair_eq, option_eq, arith, AreNew, AreNew-Distinct,
}
use yuelink_ci.Prelude.Result.{ok, value_or}
use yuelink_ci.Json.{Json, null, obj, item}
use yuelink_ci.ClientPolicy.{
  Library, Stamp, Identity, Certification, MaintainedLatest, Release, identity,
}
use yuelink_ci.ClientPolicy.Fields.{require, shape}
use yuelink_ci.ClientPolicy.Validate.{Seen, combination, read_certification, read_certifications}
use yuelink_ci.ClientPolicy.Validate.{read_latest, read_release, maintained_by, bounded_list}
use yuelink_ci.ClientPolicy.Valid.{LatestIsDated, IsReleaseValid}

module _ (lib : Library) (published : ℕ) where
  record IsRead (released : Stamp) (seen : List (String × Option Identity)) (c : Certification)
      : Type 0 where
    dated : (released.at ≤ c.tested_at.at) × (c.tested_at.at ≤ published)
    new : contains seen (combination c) ≡ false

  read_certification-IsRead :
      (product : String) (released : Stamp) (seen : List (String × Option Identity)) (v : Json)
      (c : Certification)
      → read_certification lib published product released seen v ≡ ok c
      → IsRead released seen c
  unfolding read_certification require
  read_certification-IsRead product released seen v c h = record {
    dated = (ground arith, ground arith);
    new = ground arith;
  }

  record AreRead (released : Stamp) (seen : List (String × Option Identity))
      (cs : List Certification) : Type 0 where
    dated : All (λ c. (released.at ≤ c.tested_at.at) × (c.tested_at.at ≤ published)) cs
    new : AreNew seen (map combination cs)

  read_certifications-AreRead :
      (product : String) (released : Stamp) (seen : List (String × Option Identity))
      (vs : List Json) (cs : List Certification)
      → read_certifications lib published product released seen vs ≡ ok cs
      → AreRead released seen cs
  unfolding read_certifications
  read_certifications-AreRead product released seen [] [] h = record { dated = tt; new = tt }
  read_certifications-AreRead product released seen [] (c ∷ cs) h = cc
  read_certifications-AreRead product released seen (v ∷ vs) [] h = absurd (ground arith)
  read_certifications-AreRead product released seen (v ∷ vs) (c ∷ cs) h =
      let one = read_certification-IsRead product released seen v c (ground arith) in
      let more =
        read_certifications-AreRead product released (seen ++ combination c ∷ []) vs cs
          (ground arith) in
      record { dated = (one.dated, more.dated); new = (one.new, more.new) }

  read_latest-LatestIsDated :
      (released : Stamp) (product : String) (seen : List String) (v : Json)
      (m : Option MaintainedLatest)
      → read_latest lib published released product seen v ≡ ok m
      → LatestIsDated released.at published m
  unfolding read_latest require
  read_latest-LatestIsDated released product seen null none h = tt
  read_latest-LatestIsDated released product seen null (some m) h = cc
  read_latest-LatestIsDated released product seen v none h = tt
  read_latest-LatestIsDated released product seen v (some m) h =
      (ground arith, ground arith, ground arith)

  read_latest-new :
      (released : Stamp) (product : String) (seen : List String) (v : Json) (m : MaintainedLatest)
      → read_latest lib published released product seen v ≡ ok (some m)
      → contains seen product ≡ false
  unfolding read_latest require
  read_latest-new released product seen null m h = cc
  read_latest-new released product seen v m h = ground arith

  read_release-parts :
      (seen : Seen) (v : Json) (r : Release)
      → read_release lib published seen v ≡ ok r
      → (vs : List Json) × (m : Json) × (read_certifications lib published r.product r.released_at
            [] vs
          ≡ ok r.certifications)
        × (read_latest lib published r.released_at r.product seen.maintained m
            ≡ ok r.maintained_latest)
        × (r.released_at.at ≤ published)
        × (contains seen.identities (identity r) ≡ false)
  unfolding read_release require shape
  read_release-parts seen (obj fs) r h = (
    value_or [] (
        bounded_list (value_or null (item "certifications" fs)) 64
          "certifications must be a bounded array"),
    value_or null (item "maintainedLatest" fs),
    ground arith,
    ground arith,
    ground arith,
    ground arith,
  )
  read_release-parts seen v r h = cc

  -- A release that was read, and how it stands to the sets of the loop.
  pub record IsReadRelease (seen : Seen) (r : Release) : Type 0 where
    pub valid : IsReleaseValid published r
    pub new : contains seen.identities (identity r) ≡ false
    pub latest : AreNew seen.maintained (maintained_by r)

  maintained_by-AreNew :
      (seen : List String) (r : Release)
      → ((m : MaintainedLatest) → r.maintained_latest ≡ some m → contains seen r.product ≡ false)
      → AreNew seen (maintained_by r)
  maintained_by-AreNew seen r h = go r.maintained_latest h
    where
      go :
          (o : Option MaintainedLatest)
          → ((m : MaintainedLatest) → o ≡ some m → contains seen r.product ≡ false)
          → AreNew seen (elim o [ none ↦ [] | some _ ↦ r.product ∷ [] ])
      go none k = tt
      go (some m) k = (k m refl, tt)

  pub read_release-IsReadRelease :
      (seen : Seen) (v : Json) (r : Release)
      → read_release lib published seen v ≡ ok r
      → IsReadRelease seen r
  read_release-IsReadRelease seen v r h =
      let (vs, m, certified, reviewed, early, fresh) = read_release-parts seen v r h in
      let read =
        read_certifications-AreRead r.product r.released_at [] vs r.certifications certified in
      record {
        valid = record {
          released = early;
          certified = read.dated;
          combined = AreNew-Distinct [] (map combination r.certifications) read.new;
          latest =
              read_latest-LatestIsDated r.released_at r.product seen.maintained m
                r.maintained_latest reviewed;
        };
        new = fresh;
        latest = maintained_by-AreNew seen.maintained r (λ e q.
            read_latest-new r.released_at r.product seen.maintained m e (reviewed ∙ ap ok q));
      }
