-- ===== src/FlutterSdk/Main.antt =====
-- `receipt`, `valid_cached_sdk` and `main`: the way from the environment to a verified SDK.
pub mod Reported
pub mod Receipt
pub mod Verified
use yuelink_ci.Prelude.{
  String, ◌<>◌, Bool, true, false, not, ◌&&◌, ◌||◌, List, [], ◌∷◌, ◌++◌, Option, none, some, all,
  map,
}
use yuelink_ci.Prelude.{◌==◌, string_eq, if◌then◌else◌}
use yuelink_ci.Prelude.Result.{Result, ok, err, value_error, ◌>>=◌, ◌>>◌, raise_if}
use yuelink_ci.Json.{Json, obj, get, has_exact_keys, is_text}
use yuelink_ci.FlutterSdk.Releases.{Entry, select_release}
use yuelink_ci.FlutterSdk.Install.{Disk, Outcomes, Download, install}
use yuelink_ci.FlutterSdk.Runtime.{Probe, executable_name, verify_runtime}

-- What reading the record of a cached SDK gives: an `OSError`, a text that is no UTF-8, one that is
-- no JSON, or a value.
pub data Reading : Type 0 where
  unreadable undecodable malformed : Reading
  parsed : Json → Reading

-- The cached SDK, as `main` sees it.
pub record Cached : Type 0 where
  pub has_executable : Bool
  pub has_record : Bool
  pub reading : Reading

-- The environment. `tool_cache` is its resolved text, `separator` that of the system's paths, and the
-- two files are those of the actions.
pub record Environment : Type 0 where
  pub version : String
  pub system : String
  pub runner_os : String
  pub runner_arch : String
  pub tool_cache : String
  pub separator : String
  pub github_path : Option String
  pub github_output : Option String

-- `receipt`
unfoldable pub receipt : String → String → String → String → List (String × String)
receipt version system runner_arch sha256 =
    ("schema", "yue-flutter-sdk-v1")
    ∷ ("version", version)
    ∷ ("system", system)
    ∷ ("runner_arch", runner_arch)
    ∷ ("archive_sha256", sha256)
    ∷ []

-- `json.loads(text) == expected`
unfoldable pub is_receipt : List (String × String) → Json → Bool
is_receipt expected (obj fs) =
    has_exact_keys fs (map (λ e. e.0) expected) && all (λ e. is_text e.1 (get e.0 fs)) expected
is_receipt expected v = false

unfoldable pub valid_cached_sdk : Cached → List (String × String) → Result Bool
valid_cached_sdk cached expected =
    if not cached.has_executable || not cached.has_record then ok false else elim cached.reading [
      | unreadable ↦ ok false
      | undecodable ↦ err (value_error "invalid UTF-8")
      | malformed ↦ ok false
      | parsed v ↦ ok (is_receipt expected v)
    ]

-- `append_line`: the line that is appended to a file.
unfoldable pub append_line : Option String → String → Result (List (String × String))
append_line none value = err (value_error "required GitHub Actions output path is absent")
append_line (some path) value =
    if path == ""
    then err (value_error "required GitHub Actions output path is absent")
    else ok ((path, value) ∷ [])

abbrev pub found_release : Option Entry → Result Entry
found_release none = err (value_error "unsupported release tuple")
found_release (some e) = ok e

-- `target`
unfoldable pub target_of : Environment → String
target_of env =
    env.tool_cache <> env.separator <> "yue-flutter" <> env.separator <> env.version
    <> env.separator <> env.runner_os <> "-" <> env.runner_arch

unfoldable pub check_identity : Environment → Result (Unit {0})
check_identity env =
    raise_if
      (env.version == "" || env.runner_os == "" || env.runner_arch == "" || env.tool_cache == "")
      "version or runner identity is absent"

-- The judgement of the cached SDK, with the release.
unfoldable pub judge : Environment → Cached → Result (Bool × Entry)
judge env cached = do
  check_identity env
  e ← found_release (select_release env.version env.system env.runner_arch)
  valid ← valid_cached_sdk cached (receipt env.version env.system env.runner_arch e.sha256)
  ok (valid, e)

-- How `main` ends, the lines that it appended, and the disk.
pub record End {ℓ} (Sdk : Type ℓ) : Type ℓ where
  pub returned : Result (Unit {0})
  pub appended : List (String × String)
  pub disk : Disk Sdk

abbrev pub with_line :
    Result (List (String × String))
    → List (String × String)
    → Result (Unit {0}) × List (String × String)
with_line (ok new) before = (ok tt, before ++ new)
with_line (err e) before = (err e, before)

abbrev pub executable_of : Environment → String
executable_of env =
    target_of env <> env.separator <> "bin" <> env.separator <> executable_name env.system

-- The second line, if the first was appended.
abbrev pub after_path :
    Environment
    → Result (Unit {0}) × List (String × String)
    → Result (Unit {0}) × List (String × String)
after_path env (ok done, before) =
    with_line (append_line env.github_output ("flutter-root=" <> target_of env)) before
after_path env (err e, before) = (err e, before)

abbrev pub after_verify :
    Environment → Result (Unit {0}) → Result (Unit {0}) × List (String × String)
after_verify env (ok done) =
    after_path env
      (with_line (append_line env.github_path (target_of env <> env.separator <> "bin")) [])
after_verify env (err e) = (err e, [])

module _ (raw_decode : String → Option (Json × String)) (strip : String → String)
    (probe : Probe) where
  -- What `main` does behind the installation.
  unfoldable pub finish : Environment → Result (Unit {0}) × List (String × String)
  finish env =
      after_verify env
        (verify_runtime raw_decode strip probe (executable_of env) env.version env.system)

  module _ {ℓ} {Sdk : Type ℓ} where
    abbrev pub after_install : Environment → Result (Unit {0}) × Disk Sdk → End Sdk
    after_install env (ok done, disk) =
        let (returned, appended) = finish env in
        record { returned = returned; appended = appended; disk = disk }
    after_install env (err e, disk) = record { returned = err e; appended = []; disk = disk }

    -- The installation and what follows it, once the cached SDK was judged.
    abbrev pub after_judge :
        Environment → Download → Outcomes → Disk Sdk → Result (Bool × Entry) → End Sdk
    after_judge env download o disk (ok (cached, e)) =
        after_install env (install cached e.sha256 download o disk)
    after_judge env download o disk (err e) = record {
      returned = err e;
      appended = [];
      disk = disk;
    }

    unfoldable pub main : Environment → Cached → Download → Outcomes → Disk Sdk → End Sdk
    main env cached download o disk = after_judge env download o disk (judge env cached)
