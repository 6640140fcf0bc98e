-- ===== src/PageHealth/Policy/Healthy.antt =====
-- The payloads that `_validate_policy` accepts, described without its order of checks.
use yuelink_ci.Prelude.{ℕ, ◌≤◌, ◌≡◌, refl, ◌↔◌, String, true, false, not, List, [], ◌∷◌}
use yuelink_ci.Prelude.{Option, some, All, any, arith, string_eq, nat_eq}
use yuelink_ci.Prelude.Result.{ok, value_or}
use yuelink_ci.Prelude.Int.{
  ℤ, pos, negsuc, ◌≤ℤ◌, ◌+ℤ◌, ◌-ℤ◌, leb_ℤ, ≤→leb_ℤ, +ℤ_parts, -ℤ_parts, pos_part, int_eq,
}
use yuelink_ci.Json.{
  Json, null, bool, int, str, obj, Fields, item, get, has_exact_keys, is_text, is_true,
}
use yuelink_ci.PageHealth.{
  Library, probe_id, release_url, public_url, max_age, max_future_skew, min_age,
}
use yuelink_ci.PageHealth.{min_body_bytes, max_body_bytes, max_latency_ms, check_keys}
use yuelink_ci.PageHealth.Policy.{exact_keys, integer, checked_epoch, is_sha256, check_identity}
use yuelink_ci.PageHealth.Policy.{check_age, check_response, check_checks, validate_policy}

-- The report is of the reviewed probe and of the reviewed page.
pub record IsIdentified (payload : Fields) : Type 0 where
  pub schema : item "schemaVersion" payload ≡ ok (int (pos 1))
  pub probe : item "probeId" payload ≡ ok (str probe_id)
  pub url : item "url" payload ≡ ok (str release_url)
  pub final : item "finalUrl" payload ≡ ok (str release_url)
  pub public : item "publicUrl" payload ≡ ok (str public_url)

-- The report was made at most fifteen minutes before the clock, and two minutes after it; the two
-- instants that it carries agree.
pub record IsFresh (lib : Library) (payload : Fields) (now : ℤ) : Type 0 where
  pub checked : ℤ
  pub text : Json
  pub written : item "checkedAt" payload ≡ ok text
  pub agreed : checked_epoch lib text ≡ ok checked
  pub counted : item "checkedAtUnix" payload ≡ ok (int checked)
  pub recent : ◌≤ℤ◌ now (checked +ℤ max_age)
  pub not_ahead : ◌≤ℤ◌ checked (now +ℤ max_future_skew)

-- The page answered as it should.
pub record IsGood (payload : Fields) : Type 0 where
  pub status : item "httpStatus" payload ≡ ok (int (pos 200))
  pub size : ℕ
  pub sized : item "bytes" payload ≡ ok (int (pos size))
  pub not_small : min_body_bytes ≤ size
  pub not_large : size ≤ max_body_bytes
  pub latency : ℕ
  pub timed : item "latencyMs" payload ≡ ok (int (pos latency))
  pub quick : latency ≤ max_latency_ms
  pub digest : Json
  pub digested : item "contentSha256" payload ≡ ok digest
  pub canonical : is_sha256 digest ≡ true
  pub code : item "errorCode" payload ≡ ok (str "none")
  pub passed : item "ok" payload ≡ ok (bool true)

-- Each of the seven checks, and no other, is there and passed.
pub record IsChecked (payload : Fields) : Type 0 where
  pub checks : Fields
  pub there : item "checks" payload ≡ ok (obj checks)
  pub exact : has_exact_keys checks check_keys ≡ true
  pub passed : All (λ name. get name checks ≡ some (bool true)) check_keys

integer-eq : (v : Json) (n : ℤ) → integer v ≡ ok n → v ≡ int n
unfolding integer
integer-eq (int k) n h = ground arith
integer-eq v n h = cc

is_text-eq : (t : String) (v : Json) → is_text t (some v) ≡ true → v ≡ str t
is_text-eq t (str s) h = ground arith
is_text-eq t v h = cc

is_true-eq : (v : Option Json) → is_true v ≡ true → v ≡ some (bool true)
is_true-eq (some (bool true)) h = refl
is_true-eq v h = cc

abbrev member_of : (key : String) (payload : Fields) → Json
member_of key payload = value_or null (item key payload)

abbrev number_of : (key : String) (payload : Fields) → ℤ
number_of key payload = value_or (pos 0) (integer (member_of key payload))

passed_of_any :
    (checks : Fields) (names : List String)
    → any (λ name. not (is_true (get name checks))) names ≡ false
    → All (λ name. get name checks ≡ some (bool true)) names
passed_of_any checks [] h = tt
passed_of_any checks (name ∷ names) h =
    (is_true-eq (get name checks) (ground arith), passed_of_any checks names (ground arith))

not_negative : (n : ℤ) (lo : ℕ) → leb_ℤ (pos lo) n ≡ true → n ≡ pos (pos_part n)
not_negative (pos k) lo h = refl
not_negative (negsuc k) lo h = absurd (ground arith)

any_of_passed :
    (checks : Fields) (names : List String)
    → All (λ name. get name checks ≡ some (bool true)) names
    → any (λ name. not (is_true (get name checks))) names ≡ false
any_of_passed checks [] h = refl
any_of_passed checks (name ∷ names) h = rw h.0 (any_of_passed checks names h.1)

exact_keys-IsChecked :
    (payload : Fields) (v : Json)
    → item "checks" payload ≡ ok v
    → check_checks payload ≡ ok tt
    → IsChecked payload
unfolding check_checks exact_keys
exact_keys-IsChecked payload (obj checks) e h = record {
  checks = checks;
  there = e;
  exact = ground arith;
  passed = passed_of_any checks check_keys (ground arith);
}
exact_keys-IsChecked payload v e h = absurd (ground arith)

module _ (payload : Fields) where
  check_identity-IsIdentified : check_identity payload ≡ ok tt → IsIdentified payload
  unfolding check_identity
  check_identity-IsIdentified h =
      let version = member_of "schemaVersion" payload in
      let probe = member_of "probeId" payload in
      let url = member_of "url" payload in
      let final = member_of "finalUrl" payload in
      let public = member_of "publicUrl" payload in
      record {
        schema = ground (arith, integer-eq version (pos 1));
        probe = ground (arith, is_text-eq probe_id probe);
        url = ground (arith, is_text-eq release_url url);
        final = ground (arith, is_text-eq release_url final);
        public = ground (arith, is_text-eq public_url public);
      }

  IsIdentified-check : IsIdentified payload → check_identity payload ≡ ok tt
  unfolding check_identity integer int_eq string_eq
  IsIdentified-check h = rw (h.schema, h.probe, h.url, h.final, h.public) refl

  check_checks-IsChecked : check_checks payload ≡ ok tt → IsChecked payload
  unfolding check_checks
  check_checks-IsChecked h =
      exact_keys-IsChecked payload (value_or null (item "checks" payload)) (ground arith) h

  IsChecked-check : IsChecked payload → check_checks payload ≡ ok tt
  unfolding check_checks exact_keys
  IsChecked-check h = rw (h.there, h.exact, any_of_passed h.checks check_keys h.passed)

  check_response-IsGood : check_response payload ≡ ok tt → IsGood payload
  unfolding check_response
  check_response-IsGood h =
      let status = member_of "httpStatus" payload in
      let size = member_of "bytes" payload in
      let latency = member_of "latencyMs" payload in
      let code = member_of "errorCode" payload in
      let passed = member_of "ok" payload in
      record {
        status = ground (arith, integer-eq status (pos 200));
        size = pos_part (number_of "bytes" payload);
        sized = ground (
          arith,
          integer-eq size (number_of "bytes" payload),
          not_negative (number_of "bytes" payload) min_body_bytes,
        );
        not_small = ground arith;
        not_large = ground arith;
        latency = pos_part (number_of "latencyMs" payload);
        timed = ground (
          arith,
          integer-eq latency (number_of "latencyMs" payload),
          not_negative (number_of "latencyMs" payload) 0,
        );
        quick = ground arith;
        digest = member_of "contentSha256" payload;
        digested = ground arith;
        canonical = ground arith;
        code = ground (arith, is_text-eq "none" code);
        passed = ground (arith, is_true-eq (some passed));
      }

  IsGood-check : IsGood payload → check_response payload ≡ ok tt
  unfolding check_response integer int_eq string_eq
  IsGood-check h =
      rw (h.status, h.sized, h.timed, h.digested, h.code, h.passed, h.canonical) (ground arith)

  module _ (lib : Library) (now : ℤ) where
    check_age-IsFresh : check_age lib payload now ≡ ok tt → IsFresh lib payload now
    unfolding check_age
    check_age-IsFresh h =
        let text = member_of "checkedAt" payload in
        let checked = number_of "checkedAtUnix" payload in
        let unix = member_of "checkedAtUnix" payload in
        let recent : ◌≤ℤ◌ (now -ℤ checked) max_age = ground arith in
        let not_ahead : ◌≤ℤ◌ min_age (now -ℤ checked) = ground arith in
        record {
          checked = checked;
          text = text;
          written = ground arith;
          agreed = ground arith;
          counted = ground (arith, integer-eq unix checked);
          recent = omega (arith, -ℤ_parts now checked, +ℤ_parts checked max_age);
          not_ahead = omega (arith, -ℤ_parts now checked, +ℤ_parts now max_future_skew);
        }

    IsFresh-check : IsFresh lib payload now → check_age lib payload now ≡ ok tt
    unfolding check_age integer
    IsFresh-check h =
        let checked = h.checked in
        let recent : leb_ℤ (now -ℤ checked) max_age ≡ true =
          ≤→leb_ℤ (now -ℤ checked) max_age
            (omega (arith, -ℤ_parts now checked, +ℤ_parts checked max_age)) in
        let not_ahead : leb_ℤ min_age (now -ℤ checked) ≡ true =
          ≤→leb_ℤ min_age (now -ℤ checked)
            (omega (arith, -ℤ_parts now checked, +ℤ_parts now max_future_skew)) in
        rw (h.written, h.agreed, h.counted, recent, not_ahead) (ground arith)

    -- The payload is of the reviewed probe, is fresh, and reports a good answer and all checks.
    pub record IsHealthy : Type 0 where
      pub identified : IsIdentified payload
      pub fresh : IsFresh lib payload now
      pub good : IsGood payload
      pub checked : IsChecked payload

    -- `_validate_policy` accepts exactly the payloads of the reviewed probe and page, made at most
    -- fifteen minutes before and two minutes after the clock, with status 200, a body and a latency
    -- within their bounds, a canonical digest, no error and all seven checks passed.
    pub validate_policy-IsHealthy : (validate_policy lib payload now ≡ ok tt) ↔ IsHealthy
    unfolding validate_policy
    validate_policy-IsHealthy = (
      λ h. record {
        identified = check_identity-IsIdentified (ground arith);
        fresh = check_age-IsFresh (ground arith);
        good = check_response-IsGood (ground arith);
        checked = check_checks-IsChecked (ground arith);
      },
      λ h.
          rw (IsIdentified-check h.identified, IsFresh-check h.fresh, IsGood-check h.good)
            (IsChecked-check h.checked),
    )
