-- ===== src/ClientPolicy/Validate.antt =====
-- `validate`: the loops over the releases and their certifications, with the sets that they fill.
use yuelink_ci.Prelude.{ℕ, suc, String, ◌<>◌, Bool, false, not, ◌&&◌, List, [], ◌∷◌}
use yuelink_ci.Prelude.{◌++◌, Option, none, some, leb, ltb, length, contains, ◌==◌, if◌then◌else◌}
use yuelink_ci.Prelude.{string_eq, nat_eq, pair_eq, option_eq}
use yuelink_ci.Prelude.Result.{Result, ok, err, value_error, ◌>>=◌, ◌>>◌}
use yuelink_ci.Prelude.Int.{pos}
use yuelink_ci.Json.{Json, null, int, str, arr, elements, item, is_text}
use yuelink_ci.ClientPolicy.{
  Library, Stamp, Identity, Certification, MaintainedLatest, Release, Policy,
}
use yuelink_ci.ClientPolicy.{repository, cores, platforms, policy_keys, identity}
use yuelink_ci.ClientPolicy.Fields.{require, shape, digest, version, timestamp, evidence}

-- `type(value) is int and value == n`
abbrev is_number : ℕ → Json → Bool
is_number n (int (pos k)) = k == n
is_number n v = false

-- `isinstance(value, str) and value in known`
abbrev text_in : List String → Json → String → Result String
text_in known (str s) message = do require (contains known s) message; ok s
text_in known v message = err (value_error ("compatibility: " <> message))

-- `isinstance(product, str) and product in REPOSITORIES`
abbrev known_product : Json → Result String
known_product (str s) = elim (repository s) [
  | none ↦ err (value_error "compatibility: unknown product")
  | some r ↦ ok s
]
known_product v = err (value_error "compatibility: unknown product")

-- `isinstance(value, list) and len(value) <= limit`
abbrev pub bounded_list : Json → ℕ → String → Result (List Json)
bounded_list (arr vs) limit message = do
  require (leb (length (elements vs)) limit) message
  ok (elements vs)
bounded_list v limit message = err (value_error ("compatibility: " <> message))

-- `type(value) is int and value > 0`
abbrev positive : Json → Result ℕ
positive (int (pos (suc n))) = ok (suc n)
positive v = err (value_error "compatibility: invalid policyRevision")

-- A core and the date of the test that used it.
abbrev pub CoreRef : Type 0
CoreRef = Identity × ℕ

-- `identities`, `maintained` and `core_refs`.
pub record Seen : Type 0 where
  pub identities : List Identity
  pub maintained : List String
  pub core_refs : List CoreRef

abbrev pub combination : Certification → String × Option Identity
combination c = (c.platform, c.core)

-- What the core of a certification appends to `core_refs`.
abbrev pub refs_of_core : Option Identity → ℕ → List CoreRef
refs_of_core none tested = []
refs_of_core (some i) tested = (i, tested) ∷ []

-- What a release appends to `core_refs`.
abbrev pub refs_of : List Certification → List CoreRef
refs_of [] = []
refs_of (c ∷ cs) = refs_of_core c.core c.tested_at.at ++ refs_of cs

-- `maintained.add(product)` for a release with an exception.
abbrev pub maintained_by : Release → List String
maintained_by r = elim r.maintained_latest [ none ↦ [] | some _ ↦ r.product ∷ [] ]

abbrev pub add_release : Seen → Release → Seen
add_release seen r = record {
  identities = seen.identities ++ identity r ∷ [];
  maintained = seen.maintained ++ maintained_by r;
  core_refs = seen.core_refs ++ refs_of r.certifications;
}

module _ (lib : Library) (published : ℕ) where
  -- `core is None` for a core product, else the application's core.
  unfoldable pub read_core : String → Json → Result (Option Identity)
  read_core product value =
      if contains cores product
      then (elim value [
        | null ↦ ok none
        | _ ↦ err (value_error "compatibility: core product cannot embed another core")
      ])
      else do
        fs ← shape value ("product" ∷ "version" ∷ []) "application core"
        name ← text_in cores (← item "product" fs) "unknown core product"
        number ← version (← item "version" fs)
        ok (some (name, number))

  unfoldable pub read_certification :
      String → Stamp → List (String × Option Identity) → Json → Result Certification
  read_certification product released combinations value = do
    fs ← shape value ("platform" ∷ "core" ∷ "testedAt" ∷ "evidence" ∷ []) "certification"
    platform ← text_in platforms (← item "platform" fs) "unknown certification platform"
    tested ← timestamp lib (← item "testedAt" fs)
    require (leb released.at tested.at && leb tested.at published) "invalid certification date"
    proof ← evidence lib (← item "evidence" fs) none
    core ← read_core product (← item "core" fs)
    require (not (contains combinations (platform, core))) "duplicate certification combination"
    ok (record { platform = platform; core = core; tested_at = tested; evidence = proof })

  -- The loop over `certificates`.
  unfoldable pub read_certifications :
      String → Stamp → List (String × Option Identity) → List Json → Result (List Certification)
  read_certifications product released combinations [] = ok []
  read_certifications product released combinations (v ∷ vs) = do
    c ← read_certification product released combinations v
    cs ← read_certifications product released (combinations ++ combination c ∷ []) vs
    ok (c ∷ cs)

  unfoldable pub read_latest :
      Stamp → String → List String → Json → Result (Option MaintainedLatest)
  read_latest released product maintained null = ok none
  read_latest released product maintained value = do
    fs ← shape value ("reviewedAt" ∷ "expiresAt" ∷ "evidence" ∷ []) "maintainedLatest"
    reviewed ← timestamp lib (← item "reviewedAt" fs)
    require (leb released.at reviewed.at && leb reviewed.at published)
        "invalid maintenance review date"
    expires ← timestamp lib (← item "expiresAt" fs)
    require (ltb reviewed.at expires.at) "invalid maintenance expiry"
    proof ← evidence lib (← item "evidence" fs) none
    require (not (contains maintained product)) "multiple latest exceptions for one product"
    ok (some (record { reviewed_at = reviewed; expires_at = expires; evidence = proof }))

  unfoldable pub read_release : Seen → Json → Result Release
  read_release seen value = do
    fs ←
        shape value
          ("product" ∷ "version" ∷ "releasedAt" ∷ "evidence" ∷ "certifications" ∷ "maintainedLatest"
            ∷ [])
          "release"
    product ← known_product (← item "product" fs)
    number ← version (← item "version" fs)
    require (not (contains seen.identities (product, number))) "duplicate release identity"
    released ← timestamp lib (← item "releasedAt" fs)
    require (leb released.at published) "release date is after manifest publication"
    proof ← evidence lib (← item "evidence" fs) (some product)
    values ← bounded_list (← item "certifications" fs) 64 "certifications must be a bounded array"
    certificates ← read_certifications product released [] values
    latest ← read_latest released product seen.maintained (← item "maintainedLatest" fs)
    ok (record {
      product = product;
      version = number;
      released_at = released;
      evidence = proof;
      certifications = certificates;
      maintained_latest = latest;
    })

  -- The loop over `releases`; it ends with the releases and the references to cores.
  unfoldable pub read_releases : Seen → List Json → Result (List Release × List CoreRef)
  read_releases seen [] = ok ([], seen.core_refs)
  read_releases seen (v ∷ vs) = do
    r ← read_release seen v
    (rs, all_refs) ← read_releases (add_release seen r) vs
    ok (r ∷ rs, all_refs)

-- `release_dates[identity]`; identities are unique when this is read.
unfoldable pub release_date : List Release → Identity → Option ℕ
release_date [] i = none
release_date (r ∷ rs) i = if i == identity r then some r.released_at.at else release_date rs i

-- `identity in release_dates and release_dates[identity] <= tested`
abbrev pub is_released_core : List Release → CoreRef → Bool
is_released_core rs (i, tested) = elim (release_date rs i) [
  | none ↦ false
  | some date ↦ leb date tested
]

-- The loop over `core_refs`.
unfoldable pub check_cores : List Release → List CoreRef → Result (Unit {0})
check_cores rs [] = ok tt
check_cores rs (ref ∷ refs) = do
  require (is_released_core rs ref) "certification core has no released evidence"
  check_cores rs refs

abbrev pub nothing_seen : Seen
nothing_seen = record { identities = []; maintained = []; core_refs = [] }

unfoldable pub validate : Library → Json → Json → Result Policy
validate lib policy published_at = do
  fs ← shape policy policy_keys "policy"
  require (is_number 1 (← item "schemaVersion" fs)) "unsupported schemaVersion"
  revision ← positive (← item "policyRevision" fs)
  require (is_number 90 (← item "transitionDays" fs)) "transitionDays must be 90"
  enforcement ← item "enforcement" fs
  unknown ← item "unknownClient" fs
  require (is_text "observe" (some enforcement) && is_text "unverified" (some unknown))
      "only observe/unverified is supported"
  published ← timestamp lib published_at
  effective ← timestamp lib (← item "effectiveAt" fs)
  require (leb effective.at published.at) "effectiveAt is after manifest publication"
  source ← digest (← item "policySourceSha256" fs)
  values ← bounded_list (← item "releases" fs) 256 "releases must be a bounded array"
  (releases, refs) ← read_releases lib published.at nothing_seen values
  check_cores releases refs
  ok (record { raw = policy; revision = revision; effective_at = effective; releases = releases })
