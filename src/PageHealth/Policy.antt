-- ===== src/PageHealth/Policy.antt =====
-- `_exact_keys`, `_integer`, `_checked_epoch` and `_validate_policy`.
pub mod Healthy
use yuelink_ci.Prelude.{ℕ, String, Bool, true, false, not, ◌&&◌, ◌||◌, List, [], ◌∷◌, Option}
use yuelink_ci.Prelude.{none, some, all, any, codes, ◌==◌, string_eq, nat_eq, if◌then◌else◌}
use yuelink_ci.Prelude.{is_hex_of_length}
use yuelink_ci.Prelude.Result.{Result, ok, err, value_error, ◌>>=◌, ◌>>◌, raise_if}
use yuelink_ci.Prelude.Int.{ℤ, pos, negsuc, ◌-ℤ◌, leb_ℤ, int_eq}
use yuelink_ci.Json.{Json, int, str, obj, Fields, item, get, has_exact_keys, is_text, is_true}
use yuelink_ci.PageHealth.{Library, probe_id, release_url, public_url, max_age, min_age}
use yuelink_ci.PageHealth.{min_body_bytes, max_body_bytes, max_latency_ms, check_keys}

unfoldable pub exact_keys : Json → List String → Result Fields
exact_keys (obj fs) expected = do
  raise_if (not (has_exact_keys fs expected)) "keys are not exact"
  ok fs
exact_keys v expected = err (value_error "must be a JSON object")

-- `_integer`: a boolean is no integer.
unfoldable pub integer : Json → Result ℤ
integer (int n) = ok n
integer v = err (value_error "must be an integer")

-- `\d{4}-\d{2}-\d{2}T\d{2}:\d{2}:\d{2}Z`, with `d` for `\d`.
unfoldable pub fits_utc : (ℕ → Bool) → List ℕ → List ℕ → Bool
fits_utc is_decimal [] [] = true
fits_utc is_decimal (t ∷ ts) (c ∷ cs) =
    (if t == b'd' then is_decimal c else t == c) && fits_utc is_decimal ts cs
fits_utc is_decimal [] (c ∷ cs) = false
fits_utc is_decimal (t ∷ ts) [] = false

-- `SHA256_RE`
abbrev pub is_sha256 : Json → Bool
is_sha256 (str s) = is_hex_of_length 64 s
is_sha256 v = false

unfoldable pub check_identity : Fields → Result (Unit {0})
check_identity payload = do
  version ← integer (← item "schemaVersion" payload)
  raise_if (not (version == pos 1)) "schemaVersion must be integer 1"
  probe ← item "probeId" payload
  raise_if (not (is_text probe_id (some probe))) "probeId is not the reviewed probe identity"
  url ← item "url" payload
  final ← item "finalUrl" payload
  raise_if (not (is_text release_url (some url)) || not (is_text release_url (some final)))
      "release-page URL/finalUrl identity mismatch"
  public ← item "publicUrl" payload
  raise_if (not (is_text public_url (some public))) "publicUrl is not the reviewed envelope URL"

unfoldable pub check_response : Fields → Result (Unit {0})
check_response payload = do
  status ← integer (← item "httpStatus" payload)
  raise_if (not (status == pos 200)) "release-page health did not observe HTTP 200"
  body_bytes ← integer (← item "bytes" payload)
  raise_if (not (leb_ℤ (pos min_body_bytes) body_bytes && leb_ℤ body_bytes (pos max_body_bytes)))
      "release-page body size is outside reviewed bounds"
  latency ← integer (← item "latencyMs" payload)
  raise_if (not (leb_ℤ (pos 0) latency && leb_ℤ latency (pos max_latency_ms)))
      "release-page latency is outside reviewed bounds"
  digest ← item "contentSha256" payload
  raise_if (not (is_sha256 digest)) "contentSha256 is not canonical lowercase SHA-256"
  code ← item "errorCode" payload
  raise_if (not (is_text "none" (some code)))
      "successful release-page health must have errorCode=none"
  passed ← item "ok" payload
  raise_if (not (is_true (some passed))) "signed release-page health reports failure"

unfoldable pub check_checks : Fields → Result (Unit {0})
check_checks payload = do
  checks ← exact_keys (← item "checks" payload) check_keys
  raise_if (any (λ name. not (is_true (get name checks))) check_keys)
      "every reviewed release-page identity check must pass"

module _ (lib : Library) where
  abbrev pub real : Option ℤ → Result ℤ
  real none = err (value_error "checkedAt is not a real UTC timestamp")
  real (some t) = ok t

  unfoldable pub checked_epoch : Json → Result ℤ
  checked_epoch (str s) = do
    raise_if (not (fits_utc lib.is_decimal (codes "dddd-dd-ddTdd:dd:ddZ") (codes s)))
        "checkedAt must be canonical UTC seconds"
    real (lib.epoch s)
  checked_epoch v = err (value_error "checkedAt must be canonical UTC seconds")

  unfoldable pub check_age : Fields → ℤ → Result (Unit {0})
  check_age payload now = do
    checked_epoch ← checked_epoch (← item "checkedAt" payload)
    checked_unix ← integer (← item "checkedAtUnix" payload)
    raise_if (not (checked_epoch == checked_unix)) "checkedAt and checkedAtUnix disagree"
    raise_if (not (leb_ℤ (now -ℤ checked_unix) max_age)) "signed release-page health is stale"
    raise_if (not (leb_ℤ min_age (now -ℤ checked_unix)))
        "signed release-page health is too far in the future"

  unfoldable pub validate_policy : Fields → ℤ → Result (Unit {0})
  unfolding check_identity check_age check_response check_checks
  validate_policy payload now = do
    check_identity payload
    check_age payload now
    check_response payload
    check_checks payload
