-- ===== src/FlutterSdk/Releases/Integrity.antt =====
-- The tables of releases are intact, and the choice is for the version and system asked for.
use yuelink_ci.Prelude.{String, ◌<>◌, Bool, true, ◌&&◌, List, [], ◌∷◌, Option, none, some}
use yuelink_ci.Prelude.{
  ◌≡◌, refl, ◌⊎◌, inl, inr, all, is_hex_of_length, arith, ◌==◌, string_eq, nat_eq,
}
use yuelink_ci.Prelude.{if◌then◌else◌, Bool-cases}
use yuelink_ci.FlutterSdk.Releases.{Entry, releases, arch_releases, find_entry, or_else}
use yuelink_ci.FlutterSdk.Releases.{select_release}

-- The infix of an archive for an architecture.
arch_mark : String → String
arch_mark arch = if arch == "ARM64" then "arm64_" else ""

-- The archive of the stable channel for an entry's key.
pub stable_archive : Entry → String
stable_archive e =
    if e.system == "Linux"
    then "stable/linux/flutter_linux_" <> (e.version <> "-stable.tar.xz")
    else if e.system == "Darwin"
    then "stable/macos/flutter_macos_" <> (arch_mark e.arch <> (e.version <> "-stable.zip"))
    else "stable/windows/flutter_windows_" <> (e.version <> "-stable.zip")

is_intact : Entry → Bool
is_intact e = is_hex_of_length 64 e.sha256 && e.archive == stable_archive e

releases-intact : all is_intact releases ≡ true
unfolding releases is_intact stable_archive arch_mark is_hex_of_length string_eq
releases-intact = refl

arch_releases-intact : all is_intact arch_releases ≡ true
unfolding arch_releases is_intact stable_archive arch_mark is_hex_of_length string_eq
arch_releases-intact = refl

-- The entry is for this key, has a canonical SHA-256, and names the stable archive of its key.
pub record IsFor (version system arch : String) (e : Entry) : Type 0 where
  pub versioned : e.version ≡ version
  pub of_system : e.system ≡ system
  pub of_arch : e.arch ≡ arch
  pub digest : is_hex_of_length 64 e.sha256 ≡ true
  pub named : e.archive ≡ stable_archive e

find_entry-IsFor :
    (version system arch : String) (es : List Entry) (e : Entry)
    → all is_intact es ≡ true
    → find_entry version system arch es ≡ some e
    → IsFor version system arch e
unfolding find_entry is_intact
find_entry-IsFor version system arch [] e h f = cc
find_entry-IsFor version system arch (x ∷ es) e h f =
    let later = find_entry-IsFor version system arch es e (ground arith) in
    elim (Bool-cases (x.version == version && x.system == system && x.arch == arch)) [
      | inl here ↦ record {
        versioned = ground arith;
        of_system = ground arith;
        of_arch = ground arith;
        digest = ground arith;
        named = ground arith;
      }
      | inr other ↦ later (ground arith)
    ]

-- A release that `main` selects is an entry for the version and the system asked for, of the
-- runner's architecture or of none; its digest is a canonical SHA-256 and its archive is the stable
-- archive of that version, system and architecture.
pub select_release-IsFor :
    (version system runner_arch : String) (e : Entry)
    → select_release version system runner_arch ≡ some e
    → IsFor version system runner_arch e ⊎ IsFor version system "" e
unfolding select_release
select_release-IsFor version system runner_arch e h =
    chosen (find_entry version system runner_arch arch_releases) refl h
  where
    chosen :
        (o : Option Entry)
        → o ≡ find_entry version system runner_arch arch_releases
        → or_else o (find_entry version system "" releases) ≡ some e
        → IsFor version system runner_arch e ⊎ IsFor version system "" e
    chosen (some a) q g =
        inl (find_entry-IsFor version system runner_arch arch_releases e arch_releases-intact (cc))
    chosen none q g = inr (find_entry-IsFor version system "" releases e releases-intact g)
