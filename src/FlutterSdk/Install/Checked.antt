-- ===== src/FlutterSdk/Install/Checked.antt =====
-- What `download`, `extract` and the test of the executable establish of an archive.
use yuelink_ci.Prelude.{
  ◌≡◌, refl, ◌↔◌, ◌++◌, ◌∷◌, String, Bool, true, false, List, [], All, contains, ◌==◌, ==→eq, arith,
  string_eq, list_eq, nat_eq,
}
use yuelink_ci.Prelude.Result.{ok}
use yuelink_ci.FlutterSdk.Paths.{
  FilePath, normalize, parts, is_absolute, has_drive, parent_mark, safe_member, link_base, Kind,
  regular, character, block, fifo, symbolic_link, hard_link, TarMember, is_special, is_unsafe_link,
  inspect_tar, inspect_zip,
}
use yuelink_ci.FlutterSdk.Paths.Inside.{StaysInside, safe_tar_link-StaysInside}
use yuelink_ci.FlutterSdk.Install.{Archive, zip, tar, Download, inspect_archive, obtain}

-- The name is of a file below the folder.
pub record IsSafeName (name : FilePath) : Type 0 where
  pub filled : (normalize name == []) ≡ false
  pub relative : is_absolute (normalize name) ≡ false
  pub without_drive : has_drive (normalize name) ≡ false
  pub forward : contains (parts (normalize name)) parent_mark ≡ false

-- The target of a link, from its folder or from the archive's, stays inside the archive.
abbrev pub IsSafeLink : TarMember → Bool → Type 0
IsSafeLink m hard =
    (normalize m.linkname == [] ≡ false)
    × (is_absolute (normalize m.linkname) ≡ false)
    × (has_drive (normalize m.linkname) ≡ false)
    × StaysInside 0 (link_base m.name hard ++ parts (normalize m.linkname))

abbrev pub IsSafeKind : TarMember → Kind → Type 0
IsSafeKind m regular = Unit
IsSafeKind m symbolic_link = IsSafeLink m false
IsSafeKind m hard_link = IsSafeLink m true
IsSafeKind m kind = ⊥

abbrev pub IsInspected : Archive → Type 0
IsInspected (zip names) = All IsSafeName names
IsInspected (tar members) = All (λ m. IsSafeName m.name × IsSafeKind m m.kind) members

-- The archive came from the address itself, has the digest, holds only what stays inside its folder,
-- and was extracted to a folder with the executable.
pub record IsChecked (expected_sha256 : String) (d : Download) : Type 0 where
  pub direct : d.redirected ≡ false
  pub intact : d.actual_sha256 ≡ expected_sha256
  pub inside : IsInspected d.archive
  pub extracted : d.extracts ≡ true
  pub executable : d.has_executable ≡ true

safe_member-IsSafeName : (name : FilePath) → (safe_member name ≡ true) ↔ IsSafeName name
unfolding safe_member
safe_member-IsSafeName name = (
  λ h. record {
    filled = ground arith;
    relative = ground arith;
    without_drive = ground arith;
    forward = ground arith;
  },
  λ s. ground (arith, s.filled, s.relative, s.without_drive, s.forward),
)

-- The two tests of a member's kind.
IsPassed : (m : TarMember) (kind : Kind) → Type 0
IsPassed m kind = (is_special kind ≡ false) × (is_unsafe_link m kind ≡ false)

IsPassed-IsSafeKind : (m : TarMember) (kind : Kind) → IsPassed m kind ↔ IsSafeKind m kind
unfolding IsPassed
IsPassed-IsSafeKind m regular = (λ h. tt, λ s. (refl, refl))
IsPassed-IsSafeKind m character = (λ h. cc, λ s. absurd s)
IsPassed-IsSafeKind m block = (λ h. cc, λ s. absurd s)
IsPassed-IsSafeKind m fifo = (λ h. cc, λ s. absurd s)
IsPassed-IsSafeKind m symbolic_link =
    let link = safe_tar_link-StaysInside m.name m.linkname false in
    (λ h. link.0 (ground arith), λ s. (refl, ground (arith, link.1 s)))
IsPassed-IsSafeKind m hard_link =
    let link = safe_tar_link-StaysInside m.name m.linkname true in
    (λ h. link.0 (ground arith), λ s. (refl, ground (arith, link.1 s)))

inspect_zip-IsInspected :
    (names : List FilePath) → (inspect_zip names ≡ ok tt) ↔ All IsSafeName names
unfolding inspect_zip
inspect_zip-IsInspected [] = (λ h. tt, λ s. refl)
inspect_zip-IsInspected (name ∷ names) =
    let one = safe_member-IsSafeName name in
    let rest = inspect_zip-IsInspected names in
    (λ h. (one.0 (ground arith), rest.0 (ground arith)), λ s. ground (arith, one.1 s.0, rest.1 s.1))

inspect_tar-IsInspected :
    (members : List TarMember)
    → (inspect_tar members ≡ ok tt) ↔ All (λ m. IsSafeName m.name × IsSafeKind m m.kind) members
unfolding inspect_tar IsPassed
inspect_tar-IsInspected [] = (λ h. tt, λ s. refl)
inspect_tar-IsInspected (m ∷ members) =
    let one = safe_member-IsSafeName m.name in
    let kind = IsPassed-IsSafeKind m m.kind in
    let rest = inspect_tar-IsInspected members in
    (
      λ h. ((one.0 (ground arith), kind.0 (ground arith, ground arith)), rest.0 (ground arith)),
      λ s.
          let (plain, inside) = kind.1 s.0.1 in
          ground (arith, one.1 s.0.0, plain, inside, rest.1 s.1),
    )

inspect_archive-IsInspected : (a : Archive) → (inspect_archive a ≡ ok tt) ↔ IsInspected a
unfolding inspect_archive
inspect_archive-IsInspected (zip names) = inspect_zip-IsInspected names
inspect_archive-IsInspected (tar members) = inspect_tar-IsInspected members

-- The download passes exactly if all of this holds.
pub obtain-IsChecked :
    (expected_sha256 : String) (d : Download)
    → (obtain expected_sha256 d ≡ ok tt) ↔ IsChecked expected_sha256 d
unfolding obtain
obtain-IsChecked expected_sha256 d =
    let archive = inspect_archive-IsInspected d.archive in
    (
      λ h. record {
        direct = ground arith;
        intact = ==→eq d.actual_sha256 expected_sha256 (ground arith);
        inside = archive.0 (ground arith);
        extracted = ground arith;
        executable = ground arith;
      },
      λ c. ground (arith, c.direct, c.intact, archive.1 c.inside, c.extracted, c.executable),
    )
