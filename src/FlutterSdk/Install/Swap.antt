-- ===== src/FlutterSdk/Install/Swap.antt =====
-- What `main` leaves on the disk, whichever file operations fail.
use yuelink_ci.Prelude.{
  String, Bool, true, false, Option, none, some, ◌≡◌, refl, sym, ◌∙◌, ◌⊎◌, inl, inr,
}
use yuelink_ci.Prelude.Result.{Exception, os_error, Result, ok, err}
use yuelink_ci.FlutterSdk.Install.{Disk, Outcomes, Download, obtain, displace, restore}
use yuelink_ci.FlutterSdk.Install.{remove_displaced, put_in_place, swap, install}
use yuelink_ci.FlutterSdk.Install.Checked.{IsChecked, obtain-IsChecked}
use yuelink_ci.FlutterSdk.Install.{after_obtain, remove_staging}

abbrev outcomes : Bool → Bool → Bool → Bool → Outcomes
outcomes displaces installs restores removes = record {
  displaces = displaces;
  installs = installs;
  restores = restores;
  removes = removes;
}

module _ {ℓ} {Sdk : Type ℓ} where
  -- A disk with the new SDK staged, over the old one if there is one.
  abbrev pub staged_over : Option Sdk → Sdk → Disk Sdk
  staged_over old new = record { target = old; displaced = none; staged = some new }

  -- A disk after the staging folder is gone.
  abbrev pub left : Option Sdk → Option Sdk → Disk Sdk
  left target displaced = record { target = target; displaced = displaced; staged = none }

  -- How an installation ends that found no valid cached SDK: by what its download is and which of its
  -- file operations succeed. The cases exclude each other.
  pub data Ending (expected_sha256 : String) (download : Download) (o : Outcomes) (old : Option Sdk)
      (new : Sdk) (end : Result (Unit {0}) × Disk Sdk) : Type ℓ where
    refused :
        (e : Exception)
        → ¬ IsChecked expected_sha256 download
        → end ≡ (err e, left old none)
        → Ending expected_sha256 download o old new end
    installed :
        IsChecked expected_sha256 download
        → o.installs ≡ true
        → (old ≡ none) ⊎ (o.displaces ≡ true) × (o.removes ≡ true)
        → end ≡ (ok tt, left (some new) none)
        → Ending expected_sha256 download o old new end
    not_displaced :
        IsChecked expected_sha256 download
        → (prior : Sdk) → old ≡ some prior
        → o.displaces ≡ false
        → end ≡ (err (os_error "replace"), left old none)
        → Ending expected_sha256 download o old new end
    rolled_back :
        IsChecked expected_sha256 download
        → o.installs ≡ false
        → (old ≡ none) ⊎ (o.displaces ≡ true) × (o.restores ≡ true)
        → end ≡ (err (os_error "replace"), left old none)
        → Ending expected_sha256 download o old new end
    moved_aside :
        IsChecked expected_sha256 download
        → (prior : Sdk) → old ≡ some prior
        → o.displaces ≡ true
        → o.installs ≡ false
        → o.restores ≡ false
        → end ≡ (err (os_error "replace"), left none old)
        → Ending expected_sha256 download o old new end
    stale_left :
        IsChecked expected_sha256 download
        → (prior : Sdk) → old ≡ some prior
        → o.displaces ≡ true
        → o.installs ≡ true
        → o.removes ≡ false
        → end ≡ (err (os_error "rmtree"), left (some new) old)
        → Ending expected_sha256 download o old new end

  module _ (expected_sha256 : String) (download : Download)
      (checked : IsChecked expected_sha256 download) where
    swap-Ending-by_outcomes :
        (displaces installs restores removes : Bool) (old : Option Sdk) (new : Sdk)
        → Ending expected_sha256 download (outcomes displaces installs restores removes) old new (
            remove_staging
              (swap (outcomes displaces installs restores removes) (staged_over old new)))
    unfolding swap displace restore remove_displaced put_in_place
    swap-Ending-by_outcomes d true r m none new = installed checked refl (inl refl) refl
    swap-Ending-by_outcomes d false r m none new = rolled_back checked refl (inl refl) refl
    swap-Ending-by_outcomes false i r m (some old) new = not_displaced checked old refl refl refl
    swap-Ending-by_outcomes true true r true (some old) new =
        installed checked refl (inr (refl, refl)) refl
    swap-Ending-by_outcomes true true r false (some old) new =
        stale_left checked old refl refl refl refl refl
    swap-Ending-by_outcomes true false true m (some old) new =
        rolled_back checked refl (inr (refl, refl)) refl
    swap-Ending-by_outcomes true false false m (some old) new =
        moved_aside checked old refl refl refl refl refl

    swap-Ending :
        (o : Outcomes) (old : Option Sdk) (new : Sdk)
        → Ending expected_sha256 download o old new (remove_staging (swap o (staged_over old new)))
    swap-Ending o = swap-Ending-by_outcomes o.displaces o.installs o.restores o.removes

  -- An installation without a valid cached SDK ends in one of six ways. It refuses a download that is
  -- not as the release has it, and keeps the old SDK. Else the download was direct, has the digest,
  -- stays inside its folder and has the executable, and: if the new SDK can be moved in, and an old
  -- one away before and removed after, the new SDK is in place and nothing else; if the old one
  -- cannot be moved away, or the new one cannot be moved in and the old one can be moved back, it
  -- fails and keeps what was there; if neither can be moved, it fails with the old one aside; and if
  -- the old one cannot be removed, it fails with the new one in place and the old one aside.
  pub install-Ending :
      (expected_sha256 : String) (download : Download) (o : Outcomes) (old : Option Sdk) (new : Sdk)
      → Ending expected_sha256 download o old new
          (install false expected_sha256 download o (staged_over old new))
  unfolding install
  install-Ending expected_sha256 download o old new = go (obtain expected_sha256 download) refl
    where
      go :
          (r : Result (Unit {0}))
          → obtain expected_sha256 download ≡ r
          → Ending expected_sha256 download o old new
              (remove_staging (after_obtain r o (staged_over old new)))
      go (err e) h =
          refused e
            (λ c.
              let passed = (obtain-IsChecked expected_sha256 download).1 c in
              let both = sym h ∙ passed in cc both)
            refl
      go (ok tt) h =
          swap-Ending expected_sha256 download ((obtain-IsChecked expected_sha256 download).0 h) o
            old new
