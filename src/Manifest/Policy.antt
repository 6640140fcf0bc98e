-- ===== src/Manifest/Policy.antt =====
-- `_validate_compatibility`, `_validate_manifest_policy` and `_enforce_minimum`.
pub mod Accepted
use yuelink_ci.Prelude.{ℕ, ◌+◌, String, Bool, true, false, not, ◌&&◌, List, Option, none, some}
use yuelink_ci.Prelude.{leb, ltb, map, contains, ◌==◌, string_eq, if◌then◌else◌}
use yuelink_ci.Prelude.Result.{Exception, value_error, key_error, type_error, Result, ok, err}
use yuelink_ci.Prelude.Result.{◌>>=◌, ◌>>◌, raise_if}
use yuelink_ci.Json.{Json, str, obj, Fields, get, item, keys, has_exact_keys, is_text}
use yuelink_ci.ClientPolicy
use yuelink_ci.ClientPolicy.Validate
use yuelink_ci.ClientPolicy.Transition.{validate_transition}
use yuelink_ci.Manifest.{Library, expected_artifacts, release_url, max_lifetime, max_clock_skew}
use yuelink_ci.Manifest.Version.{Version, stable_version, version_ltb}
use yuelink_ci.Manifest.Checks.{
  utc_timestamp, equals_number, is_filled, check_evidence, check_assets,
}

-- `except (ValueError, TypeError, KeyError) as exc: raise ManifestError(str(exc))`
abbrev pub as_manifest_error : Exception → Exception
as_manifest_error key_error = value_error "key"
as_manifest_error type_error = value_error "type"
as_manifest_error e = e

abbrev pub rewrap {ℓ} : {A : Type ℓ} → Result A → Result A
rewrap (ok a) = ok a
rewrap (err e) = err (as_manifest_error e)

abbrev pub first_of_pair : String × String → String
first_of_pair (k, v) = k

-- The text of a version that `_stable_version` accepted.
abbrev pub text_of : Option Json → String
text_of (some (str s)) = s
text_of v = ""

-- The test of `platforms`, and the loop over them.
unfoldable pub check_platforms : String → Option Json → Result (Unit {0})
check_platforms version (some (obj platforms)) = do
  raise_if (not (has_exact_keys platforms (map first_of_pair expected_artifacts)))
      "platforms must contain exactly the reviewed 9 targets"
  check_assets version expected_artifacts platforms
check_platforms version v =
    err (value_error "platforms must contain exactly the reviewed 9 targets")

module _ (lib : Library) where
  -- The policy that the manifest carries, if it carries one.
  unfoldable pub read_compatibility : Fields → Result (Option ClientPolicy.Policy)
  read_compatibility fs = elim (get "compatibility" fs) [
    | none ↦ ok none
    | some value ↦ rewrap (do
      published_at ← item "publishedAt" fs
      policy ← Validate.validate lib.policy value published_at
      ok (some policy))
  ]

  unfoldable pub check_head : Fields → Result (Unit {0})
  check_head fs = do
    raise_if (not (equals_number lib 1 (get "schemaVersion" fs))) "schemaVersion must be integer 1"
    raise_if (not (is_text "stable" (get "channel" fs))) "channel must be stable"
    stable_version (get "version" fs) >>= λ v. ok tt
    raise_if (not (is_text release_url (get "releaseUrl" fs)))
        "releaseUrl is outside the reviewed release page"
    raise_if (not (is_filled lib (get "notes" fs))) "notes must be a non-empty string"
    raise_if (contains (keys fs) "notesEn" && not (is_filled lib (get "notesEn" fs)))
        "notesEn must be a non-empty string when present"

  unfoldable pub check_times : Fields → ℕ → Result (Unit {0})
  check_times fs now = do
    published ← utc_timestamp lib (get "publishedAt" fs)
    expires ← utc_timestamp lib (get "expiresAt" fs)
    raise_if (leb expires published) "expiresAt must be later than publishedAt"
    raise_if (ltb (published + max_lifetime) expires) "manifest lifetime exceeds 45 days"
    raise_if (ltb (now + max_clock_skew) published) "publishedAt is implausibly far in the future"

  -- `now` is the clock that the caller reads or passes.
  unfoldable pub validate_manifest_policy : Fields → ℕ → Result (Unit {0})
  validate_manifest_policy fs now = do
    policy ← read_compatibility fs
    check_head fs
    check_evidence lib fs
    check_times fs now
    check_platforms (text_of (get "version" fs)) (get "platforms" fs)

  -- `compatibility` of a manifest, whose policy was validated with the manifest.
  unfoldable pub enforce_minimum : Fields → Fields → Result (Unit {0})
  enforce_minimum manifest floor = do
    floor_policy ← read_compatibility floor
    policy ← read_compatibility manifest
    rewrap (validate_transition lib.policy policy floor_policy)
    candidate ← stable_version (get "version" manifest)
    least ← stable_version (get "version" floor)
    published ← utc_timestamp lib (get "publishedAt" manifest)
    floor_published ← utc_timestamp lib (get "publishedAt" floor)
    raise_if (version_ltb candidate least) "manifest version is below the reviewed minimum"
    raise_if (ltb published floor_published) "manifest publishedAt is below the reviewed minimum"
