-- ===== src/Tests/Sdk.antt =====
-- Runs of .github/actions/setup-flutter/install_flutter_sdk.py.
use yuelink_ci.Prelude.{◌≡◌, refl, ◌↔◌, ◌⊎◌, String, true, false, some, List, [], ◌∷◌}
use yuelink_ci.Prelude.{split, ◌++◌, codes, ◌==◌, list_eq, nat_eq, string_eq}
use yuelink_ci.Prelude.Result.{err, value_error}
use yuelink_ci.FlutterSdk.Paths.{
  FilePath, safe_member, safe_tar_link, normalize, is_absolute, has_drive,
}
use yuelink_ci.FlutterSdk.Paths.{
  link_base, parts, root, keep_parts, parent_parts, drop_last, resolve,
}
use yuelink_ci.FlutterSdk.Paths.{TarMember, symbolic_link, regular, inspect_tar}
use yuelink_ci.FlutterSdk.Paths.Inside.{StaysInside, safe_tar_link-StaysInside}
use yuelink_ci.FlutterSdk.Releases.{Entry, releases, arch_releases, find_entry, select_release}
use yuelink_ci.FlutterSdk.Releases.Integrity.{IsFor, select_release-IsFor}
use yuelink_ci.FlutterSdk.Install.{Outcomes, Download, tar, obtain, install, inspect_archive}
use yuelink_ci.FlutterSdk.Install.Swap.{Ending, staged_over, install-Ending}

-- A link to a file of the archive, and one that climbs out.
abbrev member : FilePath
member = codes "flutter/bin/dart"

abbrev inner : FilePath
inner = codes "../cache/./dart"

abbrev outer : FilePath
outer = codes "../../../dart"

inner_link : safe_tar_link member inner false ≡ true
unfolding safe_tar_link root keep_parts parts is_absolute has_drive parent_parts drop_last resolve
    list_eq nat_eq split
inner_link = refl

outer_link : safe_tar_link member outer false ≡ false
unfolding safe_tar_link root keep_parts parts is_absolute has_drive parent_parts drop_last resolve
    list_eq nat_eq split
outer_link = refl

drive_member : safe_member (codes "C:\\flutter") ≡ false
unfolding safe_member is_absolute has_drive list_eq nat_eq
drive_member = refl

safe_tar_link-StaysInside_example : (safe_tar_link member inner false ≡ true) ↔ (
    (normalize inner == [] ≡ false)
    × (is_absolute (normalize inner) ≡ false)
    × (has_drive (normalize inner) ≡ false)
    × StaysInside 0 (link_base member false ++ parts (normalize inner)))
safe_tar_link-StaysInside_example = safe_tar_link-StaysInside member inner false

abbrev windows : Entry
windows = record {
  version = "3.47.2";
  system = "Windows";
  arch = "";
  archive = "stable/windows/flutter_windows_3.47.2-stable.zip";
  sha256 = "37934f2128a55d77a38baba12fd611157ed23a47bf7d2b7d17e9e84da118409d";
}

windows_selected : select_release "3.47.2" "Windows" "X64" ≡ some windows
unfolding select_release find_entry releases arch_releases string_eq
windows_selected = refl

select_release-IsFor_example :
    IsFor "3.47.2" "Windows" "X64" windows ⊎ IsFor "3.47.2" "Windows" "" windows
select_release-IsFor_example =
    select_release-IsFor "3.47.2" "Windows" "X64" windows windows_selected

abbrev file : TarMember
file = record { name = member; kind = regular; linkname = [] }

abbrev link : TarMember
link = record { name = member; kind = symbolic_link; linkname = outer }

abbrev download : List TarMember → Download
download members = record {
  redirected = false;
  actual_sha256 = "aa";
  archive = tar members;
  extracts = true;
  has_executable = true;
}

abbrev old_sdk : String
old_sdk = "old"

abbrev new_sdk : String
new_sdk = "new"

-- The new SDK cannot be moved in, and the old one is moved back.
abbrev blocked : Outcomes
blocked = record { displaces = true; installs = false; restores = true; removes = true }

unsafe_refused : obtain "aa" (download (file ∷ link ∷ [])) ≡ err (value_error "unsafe tar link")
unfolding obtain inspect_archive inspect_tar safe_member safe_tar_link string_eq parts root
    keep_parts is_absolute has_drive parent_parts drop_last resolve list_eq nat_eq split
unsafe_refused = refl

install-Ending_example :
    Ending "aa"
      (download (file ∷ []))
      blocked
      (some old_sdk)
      new_sdk
      (install false "aa" (download (file ∷ [])) blocked (staged_over (some old_sdk) new_sdk))
install-Ending_example = install-Ending "aa" (download (file ∷ [])) blocked (some old_sdk) new_sdk
