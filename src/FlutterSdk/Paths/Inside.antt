-- ===== src/FlutterSdk/Paths/Inside.antt =====
-- What the link test establishes: a walk along the parts never leaves the folder of the archive.
use yuelink_ci.Prelude.{
  refl, ℕ, zero, suc, ◌+◌, ◌-◌, ◌≤◌, ◌<◌, ◌≡◌, ◌↔◌, inl, inr, Bool-cases, Bool, true, false,
}
use yuelink_ci.Prelude.{
  List, [], ◌∷◌, ◌++◌, take, length, arith, ◌==◌, nat_eq, list_eq, if◌then◌else◌,
}
use yuelink_ci.FlutterSdk.Paths.{FilePath, parent_mark, is_skipped, resolve, normalize, parts}
use yuelink_ci.FlutterSdk.Paths.{is_absolute, has_drive, link_base, safe_tar_link}

-- How many folders a part goes up, and how many it goes down.
abbrev up : FilePath → ℕ
up p = if is_skipped p then 0 else if p == parent_mark then 1 else 0

abbrev down : FilePath → ℕ
down p = if is_skipped p then 0 else if p == parent_mark then 0 else 1

pub ups : List FilePath → ℕ
ups [] = 0
ups (p ∷ ps) = up p + ups ps

pub downs : List FilePath → ℕ
downs [] = 0
downs (p ∷ ps) = down p + downs ps

-- From a folder `depth` levels down, no prefix of the parts climbs above the top, and the whole path
-- ends below it.
pub record StaysInside (depth : ℕ) (ps : List FilePath) : Type 0 where
  pub prefixes : (n : ℕ) → ups (take n ps) ≤ depth + downs (take n ps)
  pub ends : ups ps < depth + downs ps

StaysInside-tail :
    (depth : ℕ) (p : FilePath) (ps : List FilePath)
    → StaysInside depth (p ∷ ps)
    → StaysInside (depth + down p - up p) ps
unfolding ups downs
StaysInside-tail depth p ps h = record {
  prefixes = λ n. omega (arith, h.prefixes (suc n), h.prefixes 1);
  ends = omega (arith, h.ends, h.prefixes 1);
}

StaysInside-cons :
    (depth : ℕ) (p : FilePath) (ps : List FilePath)
    → up p ≤ depth + down p
    → StaysInside (depth + down p - up p) ps
    → StaysInside depth (p ∷ ps)
unfolding ups downs
StaysInside-cons depth p ps le h = record { prefixes = λ n. bound n; ends = omega (arith, h.ends) }
  where
    bound : (n : ℕ) → ups (take n (p ∷ ps)) ≤ depth + downs (take n (p ∷ ps))
    bound zero = omega arith
    bound (suc n) = omega (arith, h.prefixes n)

-- One part, for a walk that stands at `resolved`.
resolve-step :
    (rs : List FilePath) (p : FilePath) (ps : List FilePath)
    → resolve rs (p ∷ ps) ≡ true
    → (up p ≤ length rs + down p)
      × ((rs' : List FilePath) × (length rs' ≡ length rs + down p - up p) × (resolve rs' ps ≡ true))
unfolding resolve
resolve-step [] p ps h = elim (Bool-cases (is_skipped p)) [
  | inl skip ↦ rw skip (omega arith, ([], omega arith, rw skip at h))
  | inr part ↦ elim (Bool-cases (p == parent_mark)) [
    | inl climb ↦ absurd (ground arith)
    | inr name ↦ rw (part, name) (omega arith, (p ∷ [], omega arith, rw (part, name) at h))
  ]
]
resolve-step (r ∷ rs) p ps h = elim (Bool-cases (is_skipped p)) [
  | inl skip ↦ rw skip (omega arith, (r ∷ rs, omega arith, rw skip at h))
  | inr part ↦ elim (Bool-cases (p == parent_mark)) [
    | inl climb ↦ rw (part, climb) (omega arith, (rs, omega arith, rw (part, climb) at h))
    | inr name ↦ rw (part, name) (omega arith, (p ∷ r ∷ rs, omega arith, rw (part, name) at h))
  ]
]

nil-StaysInside : (depth : ℕ) → 0 < depth → StaysInside depth []
unfolding ups downs
nil-StaysInside depth h = record { prefixes = λ n. bound n; ends = omega arith }
  where
    bound : (n : ℕ) → ups (take n []) ≤ depth + downs (take n [])
    bound zero = omega arith
    bound (suc n) = omega arith

resolve-StaysInside : (rs ps : List FilePath) → resolve rs ps ≡ true → StaysInside (length rs) ps
unfolding resolve
resolve-StaysInside [] [] h = cc
resolve-StaysInside (r ∷ rs) [] h = nil-StaysInside (length (r ∷ rs)) (omega arith)
resolve-StaysInside rs (p ∷ ps) h =
    let (le, (rs', depth, rest)) = resolve-step rs p ps h in
    StaysInside-cons (length rs) p ps le (rw (← depth) (resolve-StaysInside rs' ps rest))

-- A walk that may go on from where one part leads may take that part.
resolve-cons :
    (rs : List FilePath) (p : FilePath) (ps : List FilePath)
    → up p ≤ length rs + down p
    → ((rs' : List FilePath) → length rs' ≡ length rs + down p - up p → resolve rs' ps ≡ true)
    → resolve rs (p ∷ ps) ≡ true
unfolding resolve
resolve-cons [] p ps le next = elim (Bool-cases (is_skipped p)) [
  | inl skip ↦ rw skip (next [] (rw skip (omega arith)))
  | inr part ↦ elim (Bool-cases (p == parent_mark)) [
    | inl climb ↦ absurd (omega (arith, rw (part, climb) at le))
    | inr name ↦ rw (part, name) (next (p ∷ []) (rw (part, name) (omega arith)))
  ]
]
resolve-cons (r ∷ rs) p ps le next = elim (Bool-cases (is_skipped p)) [
  | inl skip ↦ rw skip (next (r ∷ rs) (rw skip (omega arith)))
  | inr part ↦ elim (Bool-cases (p == parent_mark)) [
    | inl climb ↦ rw (part, climb) (next rs (rw (part, climb) (omega arith)))
    | inr name ↦ rw (part, name) (next (p ∷ r ∷ rs) (rw (part, name) (omega arith)))
  ]
]

StaysInside-resolve : (rs ps : List FilePath) → StaysInside (length rs) ps → resolve rs ps ≡ true
unfolding resolve ups downs
StaysInside-resolve [] [] h = absurd (omega (arith, h.ends))
StaysInside-resolve (r ∷ rs) [] h = refl
StaysInside-resolve rs (p ∷ ps) h =
    resolve-cons rs p ps (omega (arith, h.prefixes 1))
      (λ rs' depth. StaysInside-resolve rs' ps (rw depth (StaysInside-tail (length rs) p ps h)))

-- A link is safe exactly when its target is not empty, not absolute and has no drive, and a walk
-- from the top of the archive, through the folder of a symbolic link's own member and along the
-- target, never climbs above the top and ends below it.
pub safe_tar_link-StaysInside :
    (member_name link_name : FilePath) (hard : Bool)
    → (safe_tar_link member_name link_name hard ≡ true) ↔ (
        (normalize link_name == [] ≡ false)
        × (is_absolute (normalize link_name) ≡ false)
        × (has_drive (normalize link_name) ≡ false)
        × StaysInside 0 (link_base member_name hard ++ parts (normalize link_name)))
unfolding safe_tar_link
safe_tar_link-StaysInside member_name link_name hard = (forth, back)
  where
    walk : List FilePath
    walk = link_base member_name hard ++ parts (normalize link_name)

    forth :
        safe_tar_link member_name link_name hard ≡ true
        → (normalize link_name == [] ≡ false)
          × (is_absolute (normalize link_name) ≡ false)
          × (has_drive (normalize link_name) ≡ false)
          × StaysInside 0 walk
    forth h = (ground arith, ground arith, ground arith, resolve-StaysInside [] walk (ground arith))

    back :
        (normalize link_name == [] ≡ false)
          × (is_absolute (normalize link_name) ≡ false)
          × (has_drive (normalize link_name) ≡ false)
          × StaysInside 0 walk
        → safe_tar_link member_name link_name hard ≡ true
    back (filled, relative, no_drive, inside) =
        let walked = StaysInside-resolve [] walk inside in ground arith
