-- ===== src/FlutterSdk/Install.antt =====
-- The installation in `main`: the checks of the download, and the swap of the cached SDK. The SDKs
-- are of an abstract type; what the network, the archive and the file system do is an argument.
-- The exit that `fail` raises, and a failed extraction, are `value_error`s with their message.
pub mod Checked
pub mod Swap
use yuelink_ci.Prelude.{String, Bool, true, false, not, List, Option, none, some, ◌==◌, string_eq}
use yuelink_ci.Prelude.{if◌then◌else◌}
use yuelink_ci.Prelude.Result.{Exception, os_error, Result, ok, err, ◌>>=◌, ◌>>◌, raise_if}
use yuelink_ci.FlutterSdk.Paths.{FilePath, TarMember, inspect_zip, inspect_tar}

-- The three places that `os.replace` moves SDKs between: the cache's target, the name that a stale
-- SDK is moved to, and the staging folder.
pub record Disk {ℓ} (Sdk : Type ℓ) : Type ℓ where
  pub target : Option Sdk
  pub displaced : Option Sdk
  pub staged : Option Sdk

-- Which file operations succeed: moving the old SDK away, moving the new one in, moving the old one
-- back, and removing it.
pub record Outcomes : Type 0 where
  pub displaces : Bool
  pub installs : Bool
  pub restores : Bool
  pub removes : Bool

pub data Archive : Type 0 where
  zip : List FilePath → Archive
  tar : List TarMember → Archive

-- What is downloaded and unpacked: whether the request was redirected, the digest of the bytes,
-- the archive's members, whether the extraction command succeeds, and whether its result has the
-- `flutter` executable.
pub record Download : Type 0 where
  pub redirected : Bool
  pub actual_sha256 : String
  pub archive : Archive
  pub extracts : Bool
  pub has_executable : Bool

unfoldable pub inspect_archive : Archive → Result (Unit {0})
inspect_archive (zip names) = inspect_zip names
inspect_archive (tar members) = inspect_tar members

-- `download`, `extract` and the test of the executable.
unfoldable pub obtain : String → Download → Result (Unit {0})
obtain expected_sha256 d = do
  raise_if d.redirected "unexpected SDK redirect"
  raise_if (not (d.actual_sha256 == expected_sha256)) "SDK SHA-256 mismatch"
  inspect_archive d.archive
  raise_if (not d.extracts) "extraction failed"
  raise_if (not d.has_executable) "official archive did not contain flutter/bin/flutter"

module _ {ℓ} {Sdk : Type ℓ} where
  -- `if target.exists(): os.replace(target, displaced)`
  unfoldable pub displace : Outcomes → Disk Sdk → Result (Unit {0}) × Disk Sdk
  displace o d = elim d.target [
    | none ↦ (ok tt, d)
    | some old ↦
        if o.displaces
        then (ok tt, record { target = none; displaced = some old; staged = d.staged })
        else (err (os_error "replace"), d)
  ]

  -- `except Exception`: the old SDK is moved back if it was moved away.
  unfoldable pub restore : Outcomes → Disk Sdk → Disk Sdk
  restore o d = elim d.displaced [
    | none ↦ d
    | some old ↦
        if o.restores then record { target = some old; displaced = none; staged = d.staged } else d
  ]

  -- `if displaced is not None: shutil.rmtree(displaced)`
  unfoldable pub remove_displaced : Outcomes → Disk Sdk → Result (Unit {0}) × Disk Sdk
  remove_displaced o d = elim d.displaced [
    | none ↦ (ok tt, d)
    | some old ↦
        if o.removes
        then (ok tt, record { target = d.target; displaced = none; staged = d.staged })
        else (err (os_error "rmtree"), d)
  ]

  -- `os.replace(sdk, target)`, after the old SDK was moved away.
  unfoldable pub put_in_place : Outcomes → Disk Sdk → Result (Unit {0}) × Disk Sdk
  put_in_place o d =
      if o.installs
      then remove_displaced o (record { target = d.staged; displaced = d.displaced; staged = none })
      else (err (os_error "replace"), restore o d)

  abbrev pub after_displace : Outcomes → Result (Unit {0}) × Disk Sdk → Result (Unit {0}) × Disk Sdk
  after_displace o (ok done, d) = put_in_place o d
  after_displace o (err e, d) = (err e, d)

  unfoldable pub swap : Outcomes → Disk Sdk → Result (Unit {0}) × Disk Sdk
  swap o d = after_displace o (displace o d)

  abbrev pub after_obtain : Result (Unit {0}) → Outcomes → Disk Sdk → Result (Unit {0}) × Disk Sdk
  after_obtain (ok done) o d = swap o d
  after_obtain (err e) o d = (err e, d)

  -- `finally: shutil.rmtree(staging, ignore_errors=True)`
  abbrev pub remove_staging : Result (Unit {0}) × Disk Sdk → Result (Unit {0}) × Disk Sdk
  remove_staging (returned, d) =
      (returned, record { target = d.target; displaced = d.displaced; staged = none })

  -- `cached` is `valid_cached_sdk(target, expected, system)`.
  unfoldable pub install :
      Bool → String → Download → Outcomes → Disk Sdk → Result (Unit {0}) × Disk Sdk
  install cached expected_sha256 download o d =
      if cached
      then (ok tt, d)
      else remove_staging (after_obtain (obtain expected_sha256 download) o d)
