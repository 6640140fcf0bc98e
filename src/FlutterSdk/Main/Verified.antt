-- ===== src/FlutterSdk/Main/Verified.antt =====
-- What a `main` that returns has verified.
use yuelink_ci.Prelude.{
  ◌≡◌, refl, sym, ap, subst, String, Bool, true, false, Option, none, some, arith, string_eq,
}
use yuelink_ci.Prelude.Result.{Result, ok, err, value_or, >>=-eq-ok}
use yuelink_ci.Json.{Json}
use yuelink_ci.FlutterSdk.Releases.{Entry, select_release}
use yuelink_ci.FlutterSdk.Install.{Disk, Outcomes, Download, install}
use yuelink_ci.FlutterSdk.Install.Checked.{IsChecked}
use yuelink_ci.FlutterSdk.Main.Receipt.{HasReceipt, valid_cached_sdk-HasReceipt}
use yuelink_ci.FlutterSdk.Install.Swap.{
  Ending, refused, installed, not_displaced, rolled_back, moved_aside, stale_left, install-Ending,
  staged_over, left,
}
use yuelink_ci.FlutterSdk.Runtime.{Probe}
use yuelink_ci.FlutterSdk.Main.{
  Cached, Environment, receipt, valid_cached_sdk, found_release, check_identity, judge, End, finish,
  main, after_judge, after_install,
}
use yuelink_ci.FlutterSdk.Main.Reported.{IsReported, IsAppended, finish-IsReported}

judge-eq-ok :
    (env : Environment) (cached : Cached) (valid : Bool) (e : Entry)
    → judge env cached ≡ ok (valid, e)
    → (select_release env.version env.system env.runner_arch ≡ some e)
      × (valid_cached_sdk cached (receipt env.version env.system env.runner_arch e.sha256)
          ≡ ok valid)
unfolding judge
judge-eq-ok env cached valid e h =
    let (u, one, h1) = >>=-eq-ok (check_identity env) _ h in
    let (e', two, h2) =
      >>=-eq-ok (found_release (select_release env.version env.system env.runner_arch)) _ h1 in
    let (valid', three, last) =
      >>=-eq-ok (valid_cached_sdk cached (receipt env.version env.system env.runner_arch e'.sha256))
        _ h2 in
    subst
      (λ (p : Bool × Entry).
        (select_release env.version env.system env.runner_arch ≡ some p.1)
        × (valid_cached_sdk cached (receipt env.version env.system env.runner_arch p.1.sha256)
            ≡ ok p.0))
      (ap (value_or (valid, e)) last) (ground arith, three)

module _ (raw_decode : String → Option (Json × String)) (strip : String → String)
    (probe : Probe) where
  module _ {ℓ} {Sdk : Type ℓ} where
    after_install-IsReported :
        (env : Environment) (r : Result (Unit {0}) × Disk Sdk)
        → (after_install raw_decode strip probe env r).returned ≡ ok tt
        → (r.0 ≡ ok tt)
          × IsReported raw_decode strip probe env
          × IsAppended raw_decode strip probe env
              (after_install raw_decode strip probe env r).appended
          × ((after_install raw_decode strip probe env r).disk ≡ r.1)
    after_install-IsReported env (ok tt, disk) h =
        let lines = (finish raw_decode strip probe env).1 in
        let (reported, appended) =
          finish-IsReported raw_decode strip probe env lines
            (ap (λ returned. (returned, lines)) h) in
        (refl, reported, appended, refl)
    after_install-IsReported env (err e, disk) h = absurd (ground (arith, h))

    -- Where the SDK in place is from: it was cached with the receipt of the release, or an archive with
    -- the release's digest, which is safe to extract, replaced what was there.
    pub data IsFrom (env : Environment) (cached : Cached) (download : Download) (old : Option Sdk)
        (new : Sdk) (e : Entry) (disk : Disk Sdk) : Type ℓ where
      cache :
          HasReceipt env cached e
          → disk ≡ staged_over old new
          → IsFrom env cached download old new e disk
      archive :
          IsChecked e.sha256 download
          → disk ≡ left (some new) none
          → IsFrom env cached download old new e disk

    pub record IsVerified (env : Environment) (cached : Cached) (download : Download)
        (old : Option Sdk) (new : Sdk) (end : End Sdk) : Type ℓ where
      pub release : Entry
      pub selected : select_release env.version env.system env.runner_arch ≡ some release
      pub origin : IsFrom env cached download old new release end.disk
      pub reported : IsReported raw_decode strip probe env
      pub appended : IsAppended raw_decode strip probe env end.appended

    archive-IsFrom :
        (env : Environment) (cached : Cached) (download : Download) (o : Outcomes)
        (old : Option Sdk) (new : Sdk) (e : Entry) (r : Result (Unit {0}) × Disk Sdk)
        → Ending e.sha256 download o old new r
        → r.0 ≡ ok tt
        → IsFrom env cached download old new e r.1
    archive-IsFrom env cached download o old new e r (refused x unchecked same) h =
        absurd (ground (arith, h, ap (λ p. p.0) same))
    archive-IsFrom env cached download o old new e r (installed checked done prior same) h =
        archive checked (ap (λ p. p.1) same)
    archive-IsFrom env cached download o old new e r (not_displaced checked p was a same) h =
        absurd (ground (arith, h, ap (λ p. p.0) same))
    archive-IsFrom env cached download o old new e r (rolled_back checked a prior same) h =
        absurd (ground (arith, h, ap (λ p. p.0) same))
    archive-IsFrom env cached download o old new e r (moved_aside checked p was a b c same) h =
        absurd (ground (arith, h, ap (λ p. p.0) same))
    archive-IsFrom env cached download o old new e r (stale_left checked p was a b c same) h =
        absurd (ground (arith, h, ap (λ p. p.0) same))

    from_cache :
        (env : Environment) (cached : Cached) (download : Download) (o : Outcomes)
        (old : Option Sdk) (new : Sdk) (e : Entry)
        → valid_cached_sdk cached (receipt env.version env.system env.runner_arch e.sha256)
          ≡ ok true
        → IsFrom env cached download old new e
            (install true e.sha256 download o (staged_over old new)).1
    unfolding install
    from_cache env cached download o old new e checked =
        cache (valid_cached_sdk-HasReceipt env cached e checked) refl

    install-IsFrom :
        (env : Environment) (cached : Cached) (download : Download) (o : Outcomes)
        (old : Option Sdk) (new : Sdk) (valid : Bool) (e : Entry)
        → valid_cached_sdk cached (receipt env.version env.system env.runner_arch e.sha256)
          ≡ ok valid
        → (install valid e.sha256 download o (staged_over old new)).0 ≡ ok tt
        → IsFrom env cached download old new e
            (install valid e.sha256 download o (staged_over old new)).1
    install-IsFrom env cached download o old new false e checked h =
        archive-IsFrom env cached download o old new e _
          (install-Ending e.sha256 download o old new) h
    install-IsFrom env cached download o old new true e checked h =
        from_cache env cached download o old new e checked

    judged-IsVerified :
        (env : Environment) (cached : Cached) (download : Download) (o : Outcomes)
        (old : Option Sdk) (new : Sdk) (j : Result (Bool × Entry))
        → judge env cached ≡ j
        → (after_judge raw_decode strip probe env download o (staged_over old new) j).returned
          ≡ ok tt
        → IsVerified env cached download old new
            (after_judge raw_decode strip probe env download o (staged_over old new) j)
    judged-IsVerified env cached download o old new (err e) judged h = absurd (ground (arith, h))
    judged-IsVerified env cached download o old new (ok (valid, e)) judged h =
        let (selected, checked) = judge-eq-ok env cached valid e judged in
        let r = install valid e.sha256 download o (staged_over old new) in
        let (done, reported, appended, same_disk) = after_install-IsReported env r h in
        record {
          release = e;
          selected = selected;
          origin =
              subst (IsFrom env cached download old new e) (sym same_disk)
                (install-IsFrom env cached download o old new valid e checked done);
          reported = reported;
          appended = appended;
        }

    -- If `main` returns, the SDK in place is of the release that the tables have for the environment,
    -- found in the cache with a receipt that names the release's version, system, architecture and
    -- digest, or put there from an archive that came from the address itself, has that digest, stays
    -- inside its folder and has the executable; it answered the version command with one document
    -- that names the version asked for, and exactly the two lines were appended to the files of the
    -- actions.
    pub main-IsVerified :
        (env : Environment) (cached : Cached) (download : Download) (o : Outcomes)
        (old : Option Sdk) (new : Sdk)
        → (main raw_decode strip probe env cached download o (staged_over old new)).returned ≡ ok tt
        → IsVerified env cached download old new
            (main raw_decode strip probe env cached download o (staged_over old new))
    unfolding main
    main-IsVerified env cached download o old new h =
        judged-IsVerified env cached download o old new (judge env cached) refl h
