-- ===== src/FlutterSdk/Main/Receipt.antt =====
-- What makes a cached SDK valid.
use yuelink_ci.Prelude.{
  ◌≡◌, refl, String, Bool, true, false, List, [], ◌∷◌, some, arith, string_eq, ◌&&◌,
}
use yuelink_ci.Prelude.Result.{ok}
use yuelink_ci.Json.{Json, str, obj, Fields, get, has_exact_keys}
use yuelink_ci.FlutterSdk.Releases.{Entry}
use yuelink_ci.FlutterSdk.Main.Reported.{is_text-eq}
use yuelink_ci.FlutterSdk.Main.{
  Reading, unreadable, undecodable, malformed, parsed, Cached, Environment, receipt, is_receipt,
  valid_cached_sdk,
}

-- The record beside the executable is an object of these five members, for this release.
pub record HasReceipt (env : Environment) (cached : Cached) (e : Entry) : Type 0 where
  pub executable : cached.has_executable ≡ true
  pub recorded : cached.has_record ≡ true
  pub members : Fields
  pub reading : cached.reading ≡ parsed (obj members)
  pub exact :
      has_exact_keys members
        ("schema" ∷ "version" ∷ "system" ∷ "runner_arch" ∷ "archive_sha256" ∷ [])
      ≡ true
  pub schema : get "schema" members ≡ some (str "yue-flutter-sdk-v1")
  pub version : get "version" members ≡ some (str env.version)
  pub system : get "system" members ≡ some (str env.system)
  pub runner_arch : get "runner_arch" members ≡ some (str env.runner_arch)
  pub archive_sha256 : get "archive_sha256" members ≡ some (str e.sha256)

both_true : (a b : Bool) → (a && b) ≡ true → (a ≡ true) × (b ≡ true)
both_true true b h = (refl, h)
both_true false b h = cc

module _ (env : Environment) (cached : Cached) (e : Entry) where
  abbrev expected : List (String × String)
  expected = receipt env.version env.system env.runner_arch e.sha256

  parsed-HasReceipt :
      (v : Json)
      → cached.has_executable ≡ true
      → cached.has_record ≡ true
      → cached.reading ≡ parsed v
      → is_receipt expected v ≡ true
      → HasReceipt env cached e
  unfolding is_receipt receipt
  parsed-HasReceipt (obj members) present recorded reading h =
      let (exact, rest₁) = both_true _ _ h in
      let (schema, rest₂) = both_true _ _ rest₁ in
      let (version, rest₃) = both_true _ _ rest₂ in
      let (system, rest₄) = both_true _ _ rest₃ in
      let (runner_arch, rest₅) = both_true _ _ rest₄ in
      let (archive_sha256, _) = both_true _ _ rest₅ in
      record {
        executable = present;
        recorded = recorded;
        members = members;
        reading = reading;
        exact = exact;
        schema = is_text-eq _ (get "schema" members) schema;
        version = is_text-eq _ (get "version" members) version;
        system = is_text-eq _ (get "system" members) system;
        runner_arch = is_text-eq _ (get "runner_arch" members) runner_arch;
        archive_sha256 = is_text-eq _ (get "archive_sha256" members) archive_sha256;
      }
  parsed-HasReceipt v present recorded reading h = cc

  by_reading :
      (r : Reading)
      → cached.reading ≡ r
      → valid_cached_sdk cached expected ≡ ok true
      → HasReceipt env cached e
  unfolding valid_cached_sdk
  by_reading unreadable same h = absurd (ground arith)
  by_reading undecodable same h = absurd (ground arith)
  by_reading malformed same h = absurd (ground arith)
  by_reading (parsed v) same h =
      parsed-HasReceipt v (ground arith) (ground arith) same (ground arith)

  -- A cached SDK that is valid has the receipt of the release.
  pub valid_cached_sdk-HasReceipt :
      valid_cached_sdk cached expected ≡ ok true → HasReceipt env cached e
  valid_cached_sdk-HasReceipt h = by_reading cached.reading refl h
