-- ===== src/Coverage/Snapshot/Bounds.antt =====
-- The workers that are started upon a snapshot fit the host and each control group above the process.
use yuelink_ci.Prelude.{
  ℕ, zero, suc, ◌≤◌, ◌<◌, ◌≡◌, refl, sym, ap, subst, String, Bool, true, false, ◌&&◌, ◌||◌, ◌⊎◌,
  inl, inr, List, [], ◌∷◌, ◌++◌, map, any, All, Option, none, some, ◌==◌, ==→eq, string_eq, list_eq,
  nat_eq, arith, if◌then◌else◌, Bool-cases,
}
use yuelink_ci.Prelude.Int.{ℤ, pos, negsuc}
use yuelink_ci.Prelude.Result.{Result, ok, value_or, >>=-eq-ok}
use yuelink_ci.Coverage.Workers.{max_workers, cpus, worker_count}
use yuelink_ci.Coverage.Workers.Bounds.{FitsMemory, worker_count-IsWithin}
use yuelink_ci.Coverage.Gitlinks.{Place}
use yuelink_ci.Coverage.Snapshot.{
  Host, ResourceReport, is_none, truthy, shares, at_most, at_most_cpus, visible_cpus, hierarchy,
  bases, host_available, quota_bound, quota_words, quota, headroom, root_uncontrolled, limit_of,
  measure, unmeasured, missing, report, resource_snapshot,
}

abbrev pub FitsQuota : Option ℕ → ℕ → Type 0
FitsQuota none n = Unit
FitsQuota (some bound) n = n ≤ bound

shares-pos : (a p : ℤ) (n : ℕ) → shares a p ≡ ok n → 0 < n
unfolding shares
shares-pos (pos a) (pos zero) n h = cc
shares-pos (negsuc a) (pos zero) n h = cc
shares-pos (pos a) (pos (suc p)) n h = ground arith
shares-pos (negsuc a) (pos (suc p)) n h = ground arith
shares-pos (pos a) (negsuc p) n h = ground arith
shares-pos (negsuc a) (negsuc p) n h = ground arith

at_most-FitsMemory :
    (available less : Option ℕ) (n : ℕ)
    → FitsMemory (at_most available less) n
    → FitsMemory available n × FitsMemory less n
at_most-FitsMemory none none n h = (tt, tt)
at_most-FitsMemory (some a) none n h = (h, tt)
at_most-FitsMemory none (some b) n h = (tt, h)
at_most-FitsMemory (some a) (some b) n h = (omega arith, omega arith)

IsPositive : Option ℕ → Type 0
IsPositive none = Unit
IsPositive (some bound) = 0 < bound

at_most_cpus-FitsQuota :
    (cpu bound : Option ℕ) (n : ℕ)
    → IsPositive bound
    → n ≤ cpus (at_most_cpus cpu bound)
    → (n ≤ cpus cpu) × FitsQuota bound n
unfolding IsPositive
at_most_cpus-FitsQuota cpu none n p h = (h, tt)
at_most_cpus-FitsQuota none (some b) n p h = (ground arith, ground arith)
at_most_cpus-FitsQuota (some c) (some b) n p h = (ground arith, ground arith)

no_gap :
    (xs : List String) (b : Bool) (gap : String)
    → xs ++ (if b then gap ∷ [] else []) ≡ []
    → b ≡ false
no_gap [] true gap h = cc
no_gap (x ∷ xs) true gap h = cc
no_gap xs false gap h = refl

module _ (host : Host) where
  quota_bound-pos :
      (amount period : Option ℤ) (bound : ℕ)
      → quota_bound host amount period ≡ ok (some bound)
      → 0 < bound
  quota_bound-pos none period bound h = cc
  quota_bound-pos (some a) none bound h = cc
  quota_bound-pos (some a) (some p) bound h =
      let (n, shared, same) = >>=-eq-ok (shares a p) _ h in
      let equal : n ≡ bound = ground arith in subst (λ m. 0 < m) equal (shares-pos a p n shared)

  quota_words-pos :
      (words : List String) (bound : ℕ) → quota_words host words ≡ ok (some bound) → 0 < bound
  quota_words-pos [] bound h = cc
  quota_words-pos (word ∷ []) bound h = absurd (ground arith)
  quota_words-pos (word ∷ other ∷ []) bound h = elim (Bool-cases (word == "max")) [
    | inl unbounded ↦ absurd (ground arith)
    | inr bounded ↦ quota_bound-pos (host.to_int word) (host.to_int other) bound (rw bounded at h)
  ]
  quota_words-pos (word ∷ other ∷ more ∷ words) bound h = absurd (ground arith)

  truthy-pos :
      (text : Option String) (bound : ℕ)
      → elim text as (λ _. Result (Option ℕ)) [
        | none ↦ ok none
        | some t ↦ quota_words host (host.split t)
      ]
        ≡ ok (some bound)
      → 0 < bound
  truthy-pos none bound h = absurd (ground arith)
  truthy-pos (some t) bound h = quota_words-pos (host.split t) bound h

  quota-IsPositive :
      (text : Option String) (bound : Option ℕ) → quota host text ≡ ok bound → IsPositive bound
  unfolding quota IsPositive
  quota-IsPositive text none h = tt
  quota-IsPositive text (some bound) h = truthy-pos (truthy text) bound h

  -- The workers fit what one control group has for them.
  pub record IsBounded (n : ℕ) (base : Place) : Type 0 where
    pub bound : Option ℕ
    pub read : quota host (host.read base "cpu.max") ≡ ok bound
    pub processors : FitsQuota bound n
    pub memory : FitsMemory (headroom host base) n

  measure-IsBounded :
      (places : List Place) (cpu available cpu' available' : Option ℕ) (n : ℕ)
      → measure host places cpu available ≡ ok (cpu', available')
      → n ≤ cpus cpu'
      → FitsMemory available' n
      → (n ≤ cpus cpu) × FitsMemory available n × All (IsBounded n) places
  unfolding measure
  measure-IsBounded [] cpu available cpu' available' n h c m =
      let nothing : Option ℕ × Option ℕ = (none, none) in
      let cpus_same : cpu ≡ cpu' = ap (λ r. (value_or nothing r).0) h in
      let same : available ≡ available' = ap (λ r. (value_or nothing r).1) h in
      (subst (λ o. n ≤ cpus o) (sym cpus_same) c, subst (λ o. FitsMemory o n) (sym same) m, tt)
  measure-IsBounded (base ∷ places) cpu available cpu' available' n h c m =
      let (bound, one, rest) = >>=-eq-ok (quota host (host.read base "cpu.max")) _ h in
      let (c2, m2, bounded) =
        measure-IsBounded places (at_most_cpus cpu bound) (at_most available (headroom host base))
          cpu' available' n rest c m in
      let (c1, q) =
        at_most_cpus-FitsQuota cpu bound n (quota-IsPositive (host.read base "cpu.max") bound one)
          c2 in
      let (m1, r) = at_most-FitsMemory available (headroom host base) n m2 in
      (c1, m1, (record { bound = bound; read = one; processors = q; memory = r }, bounded))

  -- The files that bound a control group were read, or it is the root without control files.
  abbrev pub IsMeasured : Place → Type 0
  IsMeasured base =
      ((is_none (host.read base "cpu.max") || is_none (host.read base "memory.max")) ≡ false)
      ⊎ (root_uncontrolled host base ≡ true)

  -- The workers fit the host and each control group from that of the process up to the root, and
  -- there is one of them unless the bounds are known.
  pub record IsFitting (n : ℕ) : Type 0 where
    pub positive : 0 < n
    pub fixed : n ≤ max_workers
    pub processors : n ≤ cpus (visible_cpus host)
    pub memory : FitsMemory (host_available host) n
    pub groups : All (IsBounded n) (bases host)
    pub evidence :
        (n ≡ 1)
        ⊎ ((host.system == "Linux") ≡ false)
        ⊎ ((is_none (hierarchy host) ≡ false) × All IsMeasured (bases host))

  measured :
      (places : List Place)
      → any (unmeasured host) (map (limit_of host) places) ≡ false
      → All IsMeasured places
  unfolding limit_of
  measured [] h = tt
  measured (base ∷ places) h = (
    elim (Bool-cases (root_uncontrolled host base)) [
      | inl root ↦ inr root
      | inr other ↦ inl (ground arith)
    ],
    measured places (ground arith),
  )

  missing-measured :
      (cpu available : Option ℕ)
      → (missing host cpu available (map (limit_of host) (bases host)) == []) ≡ true
      → ((host.system == "Linux") ≡ false)
        ⊎ ((is_none (hierarchy host) ≡ false) × All IsMeasured (bases host))
  unfolding missing
  missing-measured cpu available h =
      let gap : (host.system == "Linux"
            && (is_none (hierarchy host)
                || any (unmeasured host) (map (limit_of host) (bases host))))
          ≡ false =
        no_gap _ _ _ (==→eq (missing host cpu available (map (limit_of host) (bases host))) [] h) in
      elim (Bool-cases (host.system == "Linux")) [
        | inl linux ↦ inr (ground arith, measured (bases host) (ground arith))
        | inr other ↦ inl other
      ]

  -- If `worker_count` returns a number of workers for a snapshot of the host, it is positive and at
  -- most four, at most the host's processors and, for each control group from that of the process
  -- up to the root, what its quota allows, and the workers fit into the host's memory and into the
  -- headroom of each of these groups; and it is one, or the system is not Linux, or the hierarchy
  -- is known and the bounds of each of its groups were read.
  pub resource_snapshot-IsFitting :
      (explicit : String) (e : ResourceReport) (n : ℕ)
      → resource_snapshot host ≡ ok e
      → worker_count explicit e.snapshot ≡ ok n
      → IsFitting n
  unfolding resource_snapshot
  resource_snapshot-IsFitting explicit e n h k =
      let ((cpu, available), one, same) =
        >>=-eq-ok (measure host (bases host) (visible_cpus host) (host_available host)) _ h in
      let limits = map (limit_of host) (bases host) in
      let reported : report host cpu available limits (missing host cpu available limits) ≡ e =
        ap (value_or e) same in
      let w =
        worker_count-IsWithin explicit
          (report host cpu available limits (missing host cpu available limits)).snapshot n
          (subst (λ r. worker_count explicit r.snapshot ≡ ok n) (sym reported) k) in
      let bounds =
        measure-IsBounded (bases host) (visible_cpus host) (host_available host) cpu available n one
          w.processors w.memory in
      record {
        positive = w.positive;
        fixed = w.fixed;
        processors = bounds.0;
        memory = bounds.1;
        groups = bounds.2;
        evidence = elim (Bool-cases (missing host cpu available limits == [])) [
          | inl complete ↦ inr (missing-measured cpu available complete)
          | inr gaps ↦ inl (w.conservative (rw gaps refl))
        ];
      }
