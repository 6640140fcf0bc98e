-- ===== src/Tests/Installs.antt =====
-- A run of `main` of .github/actions/setup-flutter/install_flutter_sdk.py without a cached SDK.
use yuelink_ci.Prelude.{
  ◌≡◌, refl, String, true, false, Option, none, some, [], ◌==◌, string_eq, nat_eq, list_eq,
  if◌then◌else◌,
}
use yuelink_ci.Prelude.Result.{ok}
use yuelink_ci.Json.{Json, str, obj, end, field, get}
use yuelink_ci.FlutterSdk.Paths.{inspect_tar}
use yuelink_ci.FlutterSdk.Releases.{releases, arch_releases, find_entry, select_release}
use yuelink_ci.FlutterSdk.Install.{
  Outcomes, Download, tar, obtain, install, inspect_archive, displace, remove_displaced,
  put_in_place, swap,
}
use yuelink_ci.FlutterSdk.Install.Swap.{staged_over}
use yuelink_ci.FlutterSdk.Runtime.{
  Probe, documents, parsed_objects, parse_machine_document, version_command, verify_runtime,
}
use yuelink_ci.FlutterSdk.Main.{
  Cached, malformed, Environment, receipt, is_receipt, valid_cached_sdk, append_line,
  check_identity, judge, finish, main, End,
}
use yuelink_ci.FlutterSdk.Main.Verified.{IsVerified, main-IsVerified}

abbrev environment : Environment
environment = record {
  version = "3.47.3";
  system = "Linux";
  runner_os = "Linux";
  runner_arch = "X64";
  tool_cache = "/t";
  separator = "/";
  github_path = some "/p";
  github_output = some "/o";
}

-- The cached SDK has a record that is no JSON.
abbrev cached : Cached
cached = record { has_executable = true; has_record = true; reading = malformed }

abbrev download : Download
download = record {
  redirected = false;
  actual_sha256 = "988665565cad9091db1baa54bf6d3868bb40e29719592f3c3a164deefd4208e1";
  archive = tar [];
  extracts = true;
  has_executable = true;
}

abbrev outcomes : Outcomes
outcomes = record { displaces = true; installs = true; restores = true; removes = true }

abbrev raw_decode : String → Option (Json × String)
raw_decode text =
    if text == "{3.47.3}\n"
    then some (obj (field "frameworkVersion" (str "3.47.3") end), "\n")
    else none

abbrev strip : String → String
strip text = if text == "\n" then "" else text

abbrev probe : Probe
probe = record {
  comspec = "";
  comspec_is_file = false;
  list2cmdline = λ command. "";
  run = λ command. ok "Building\n  {3.47.3}\n";
}

abbrev end_of : End String
end_of =
    main raw_decode strip probe environment cached download outcomes
      (staged_over (some "old") "new")

main_lem : end_of.returned ≡ ok tt
unfolding main judge check_identity select_release find_entry releases arch_releases
    valid_cached_sdk is_receipt receipt install obtain inspect_archive inspect_tar swap displace
    put_in_place remove_displaced finish verify_runtime version_command parse_machine_document
    parsed_objects documents append_line get string_eq nat_eq list_eq
main_lem = refl

main-IsVerified_example :
    IsVerified raw_decode strip probe environment cached download (some "old") "new" end_of
main-IsVerified_example =
    main-IsVerified raw_decode strip probe environment cached download outcomes (some "old") "new"
      main_lem
